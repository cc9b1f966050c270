-- ===== src/Tests/Devices.antt =====
-- Device strings in ASCII.
use nx_tinygrad.Base.{
  ℕ, ◌-◌, ◌≡◌, refl, ap₂, false, ◌&&◌, Option, none, some, [], ◌∷◌, map, reverse, arith, leb, ◌==◌,
  if◌then◌else◌, ◌⊎◌,
}
use nx_tinygrad.Errors.{ok, fail, python_error, device_unavailable}
use nx_tinygrad.Dict.PopAll.{contains}
use nx_tinygrad.Device.{
  Text, plus, colon, amd, kfd, llvm, Runtime, cut, same_text, configure, parse_text, parse_device,
  apply_env, unavailable, probe,
}
use nx_tinygrad.Device.Shown.{IsUpper}
use nx_tinygrad.Device.Reparse.{parse_device-again}
use nx_tinygrad.Device.Explicit.{written, parse_device-amd}

abbrev upper_char : ℕ → ℕ
upper_char c = if leb 97 c && leb c 122 then c - 32 else c

abbrev upper : Text → Text
upper = map upper_char

abbrev lstrip : Text → Text
lstrip [] = []
lstrip (c ∷ t) = if c == 32 then lstrip t else c ∷ t

abbrev strip : Text → Text
strip t = reverse (lstrip (reverse (lstrip t)))

upper_again : (t : Text) → upper (upper t) ≡ upper t
upper_again [] = refl
upper_again (c ∷ t) = ap₂ (λ d s. d ∷ s) (char_again c) (upper_again t)
  where
    char_again : (c : ℕ) → upper_char (upper_char c) ≡ upper_char c
    char_again c = ground arith

upper_keeps :
    (c : ℕ) (t : Text)
    → (c ≡ plus) ⊎ (c ≡ colon)
    → contains c t ≡ false
    → contains c (upper t) ≡ false
upper_keeps c [] h k = refl
upper_keeps c (d ∷ t) h k =
    let later : contains c (upper t) ≡ false = upper_keeps c t h (ground (arith, k)) in
    ground (arith, h, k, later)

upper-IsUpper : IsUpper upper
upper-IsUpper = record {
  again = upper_again;
  keeps = upper_keeps;
  nonempty = λ c t. (upper_char c, upper t, refl);
  upper_kfd = refl;
  upper_llvm = refl;
}

-- "kfd+amd"
abbrev some_spec : Option Text
some_spec = some (107 ∷ 102 ∷ 100 ∷ plus ∷ 97 ∷ 109 ∷ 100 ∷ [])

-- "KFD+AMD:LLVM"
abbrev some_dev : Text
some_dev = 75 ∷ 70 ∷ 68 ∷ plus ∷ 65 ∷ 77 ∷ 68 ∷ colon ∷ llvm

some_spec-parse_device : parse_device upper strip some_spec ≡ record {
  spec = 107 ∷ 102 ∷ 100 ∷ plus ∷ 97 ∷ 109 ∷ 100 ∷ [];
  backend = amd;
  interface = some kfd;
  renderer = some llvm;
  tinygrad_device = amd;
  dev = some_dev;
}
unfolding parse_device parse_text cut configure same_text
some_spec-parse_device = refl

parse_device-again_example :
    parse_device upper strip (some (parse_device upper strip some_spec).dev)
    ≡ record (parse_device upper strip some_spec) {
      spec = (parse_device upper strip some_spec).dev;
    }
unfolding parse_device parse_text cut configure same_text
parse_device-again_example =
    parse_device-again upper strip upper-IsUpper some_spec 75
      (70 ∷ 68 ∷ plus ∷ 65 ∷ 77 ∷ 68 ∷ colon ∷ llvm) refl refl refl

-- "kfd+amd", by its parts
parse_device-amd_example :
    parse_device upper strip
      (some (written (some (107 ∷ 102 ∷ 100 ∷ [])) (97 ∷ 109 ∷ 100 ∷ []) none))
    ≡ record {
      spec = 107 ∷ 102 ∷ 100 ∷ plus ∷ 97 ∷ 109 ∷ 100 ∷ [];
      backend = amd;
      interface = some kfd;
      renderer = some llvm;
      tinygrad_device = amd;
      dev = some_dev;
    }
parse_device-amd_example =
    parse_device-amd upper strip upper-IsUpper (some (107 ∷ 102 ∷ 100 ∷ [])) 97 (109 ∷ 100 ∷ [])
      none (refl, refl) refl refl

-- Opening the device, and the computation on it.
abbrev broken : Runtime ℕ
broken = record {
  put_env = λ dev. ok tt;
  load = λ dev. ok tt;
  open_device = λ name. ok 0;
  smoke = λ name. fail (python_error "RuntimeError") "no kernel";
  arch = λ d. none;
  selected = λ d. none;
}

-- A computation that fails is reported as such, and an import that fails is not.
broken-probe :
    probe upper strip broken [] some_spec none none
    ≡ fail device_unavailable "smoke computation failed"
unfolding probe apply_env unavailable
broken-probe = refl

missing-probe :
    probe upper strip
      (record broken { load = λ dev. fail (python_error "ImportError") "tinygrad" })
      []
      some_spec
      none
      none
    ≡ fail (python_error "ImportError") "tinygrad"
unfolding probe apply_env
missing-probe = refl
