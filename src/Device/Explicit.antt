-- ===== src/Device/Explicit.antt =====
-- What a device string with an AMD backend is parsed to, so that tinygrad's own choice of an
-- interface or a renderer is never used.
use nx_tinygrad.Base.{ℕ, ◌≡◌, refl, ap, ◌∙◌, false, Option, none, some, [], ◌∷◌, ◌++◌}
use nx_tinygrad.Dict.PopAll.{contains}
use nx_tinygrad.Device.{
  Text, plus, colon, cpu, kfd, llvm, same_text, or_text, cut, renderer_part, or_name, configure,
  upper_name, parse_text, parse_device,
}
use nx_tinygrad.Device.Cut.{cut_absent, cut-append}
use nx_tinygrad.Device.Shown.{IsUpper, configure_parts}

-- The device strings: `[<IFACE>+]<BACKEND>[:<RENDERER>]`.
abbrev pub tail : Text → Option Text → Text
tail backend none = backend
tail backend (some renderer) = backend ++ (colon ∷ renderer)

abbrev pub written : Option Text → Text → Option Text → Text
written none backend renderer = tail backend renderer
written (some iface) backend renderer = iface ++ (plus ∷ tail backend renderer)

-- The first `+` and the first `:` behind it are the separators.
abbrev pub IsReadable : Option Text → Text → Option Text → Type 0
IsReadable none backend renderer =
    (contains plus (tail backend renderer) ≡ false) × (contains colon backend ≡ false)
IsReadable (some iface) backend renderer =
    (contains plus iface ≡ false) × (contains colon backend ≡ false)

-- A part in upper case, or the default where it is missing or empty.
abbrev pub chosen : (Text → Text) → Option Text → Text → Text
chosen upper none default = default
chosen upper (some []) default = default
chosen upper (some (c ∷ t)) default = upper (c ∷ t)

renderer_part-tail :
    (backend : Text) (renderer : Option Text)
    → contains colon backend ≡ false
    → renderer_part (cut colon (tail backend renderer)) (tail backend renderer)
      ≡ (backend, renderer)
renderer_part-tail backend none absent = rw (cut_absent colon backend absent) refl
renderer_part-tail backend (some renderer) absent =
    rw (cut-append colon backend renderer absent) refl

module _ (upper strip : Text → Text) (is : IsUpper upper) where
  parse_text-written :
      (i : Option Text) (b : Text) (r : Option Text)
      → IsReadable i b r
      → parse_text upper strip (written i b r)
        ≡ configure (written i b r) (upper_name upper strip i) (upper b) (upper_name upper strip r)
  parse_text-written none b r (no_plus, no_colon) =
      configure_parts upper strip is (tail b r) none (tail b r) b r
        (rw (cut_absent plus (tail b r) no_plus) refl) (renderer_part-tail b r no_colon)
  parse_text-written (some i) b r (no_plus, no_colon) =
      configure_parts upper strip is (written (some i) b r) (some i) (tail b r) b r
        (rw (cut-append plus i (tail b r) no_plus) refl) (renderer_part-tail b r no_colon)

  or_name-upper_name :
      (i : Option Text) (default : Text)
      → or_name (upper_name upper strip i) default ≡ chosen upper i default
  or_name-upper_name none default = refl
  or_name-upper_name (some []) default = refl
  or_name-upper_name (some (c ∷ t)) default = let (d, s, e) = is.nonempty c t in rw e refl

  written-nonempty :
      (i : Option Text) (c : ℕ) (b : Text) (r : Option Text)
      → or_text (written i (c ∷ b) r) cpu ≡ written i (c ∷ b) r
  written-nonempty none c b none = refl
  written-nonempty none c b (some r) = refl
  written-nonempty (some []) c b r = refl
  written-nonempty (some (d ∷ i)) c b r = refl

  -- A string of an optional interface, a backend that is `AMD` in upper case, and an optional
  -- renderer, separated by its first `+` and the first `:` behind it, and not changed by
  -- `strip`, is parsed to the backend `AMD` with the interface given, in upper case, and
  -- otherwise `KFD`, and with the renderer given, in upper case, and otherwise `LLVM`; "dev"
  -- names all three. An empty part counts as missing. `upper` has the laws of `IsUpper`, of
  -- which only the one that no string becomes empty is needed.
  pub parse_device-amd :
      (i : Option Text) (c : ℕ) (b : Text) (r : Option Text)
      → IsReadable i (c ∷ b) r
      → upper (c ∷ b) ≡ 65 ∷ 77 ∷ 68 ∷ []
      → strip (written i (c ∷ b) r) ≡ written i (c ∷ b) r
      → parse_device upper strip (some (written i (c ∷ b) r)) ≡ record {
        spec = written i (c ∷ b) r;
        backend = 65 ∷ 77 ∷ 68 ∷ [];
        interface = some (chosen upper i (75 ∷ 70 ∷ 68 ∷ []));
        renderer = some (chosen upper r (76 ∷ 76 ∷ 86 ∷ 77 ∷ []));
        tinygrad_device = 65 ∷ 77 ∷ 68 ∷ [];
        dev =
            chosen upper i (75 ∷ 70 ∷ 68 ∷ [])
            ++ (43 ∷ 65 ∷ 77 ∷ 68 ∷ 58 ∷ chosen upper r (76 ∷ 76 ∷ 86 ∷ 77 ∷ []));
      }
  unfolding parse_device configure same_text
  parse_device-amd i c b r readable is_amd bare =
      let first = or_name-upper_name i kfd in
      let second = or_name-upper_name r llvm in
      ap (λ s. parse_text upper strip (or_text s cpu)) bare
      ∙ ap (parse_text upper strip) (written-nonempty i c b r)
      ∙ parse_text-written i (c ∷ b) r readable
      ∙ rw (is_amd, first, second) refl
