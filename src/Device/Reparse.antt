-- ===== src/Device/Reparse.antt =====
-- The string of "dev", that is put into the environment, parses to the same device.
use nx_tinygrad.Base.{
  ℕ, ◌≡◌, refl, sym, ap, ◌∙◌, subst, Bool, false, none, some, Option, [], ◌∷◌, ◌++◌, append_assoc,
  arith, Bool-cases, Option-cases, inl, inr, ◌==◌,
}
use nx_tinygrad.Dict.PopAll.{contains}
use nx_tinygrad.Device.{
  Text, plus, colon, cpu, amd, kfd, same_text, or_text, or_empty, cut, interface_part,
  renderer_part, or_name, prefix, suffix, Device, configure, upper_name, parse_text, parse_device,
}
use nx_tinygrad.Device.Cut.{
  cut-none, cut-some, cut_join, contains_append, contains_parts, same_text-eq,
}
use nx_tinygrad.Device.Shown.{
  IsUpper, IsName, upper_name-IsName, Apart, configure_parts, parse_shown, or_name_lem,
  interface-Apart,
}

abbrev pub begins : ℕ → Text → Bool
begins c [] = false
begins c (d ∷ t) = c == d

module _ (upper strip : Text → Text) (is : IsUpper upper) where
  amd_again :
      (spec : Text) (i r : Option Text)
      → IsName upper strip is i
      → IsName upper strip is r
      → upper amd ≡ amd
      → contains plus (or_name i kfd) ≡ false
      → parse_text upper strip (configure spec i amd r).dev
        ≡ record (configure spec i amd r) { spec = (configure spec i amd r).dev }
  unfolding configure same_text IsName Apart
  amd_again spec i r name name' fixed apart =
      let (d, s, e, same) = or_name_lem upper strip is i 75 (70 ∷ 68 ∷ []) name is.upper_kfd refl in
      let (d', s', e', same') =
        or_name_lem upper strip is r 76 (76 ∷ 86 ∷ 77 ∷ []) name' is.upper_llvm refl in
      let apart' : contains plus (d ∷ s) ≡ false = ap (contains plus) (sym e) ∙ apart in
      let shape : prefix (some (d ∷ s)) ++ (amd ++ suffix (some (d' ∷ s')))
          ≡ (d ∷ s) ++ (plus ∷ (amd ++ (colon ∷ d' ∷ s'))) =
        append_assoc (d ∷ s) (plus ∷ []) (amd ++ (colon ∷ d' ∷ s')) in
      let parsed =
        parse_shown upper strip is (some (d ∷ s)) amd (some (d' ∷ s')) (inr (d, s, refl, same))
          (inr (d', s', refl, same')) fixed refl apart' in
      rw (e, e')
        (ap (parse_text upper strip) (sym shape)
          ∙ parsed
          ∙ ap (λ (z : Text). configure z (some (d ∷ s)) amd (some (d' ∷ s'))) shape)

  dev_again :
      (spec : Text) (i : Option Text) (b : Text) (r : Option Text)
      → IsName upper strip is i
      → IsName upper strip is r
      → upper b ≡ b
      → contains colon b ≡ false
      → Apart upper strip is i b r
      → parse_text upper strip (configure spec i b r).dev
        ≡ record (configure spec i b r) { spec = (configure spec i b r).dev }
  unfolding configure
  dev_again spec i b r name name' fixed absent apart = elim (Bool-cases (same_text b amd)) [
    | inl hit ↦
        let same : b ≡ amd = same_text-eq b amd hit in
        let fixed' : upper amd ≡ amd = ap upper (sym same) ∙ fixed ∙ same in
        rw same
          (amd_again spec i r name name' fixed' (interface-Apart upper strip is i b r name apart))
    | inr miss ↦
        let whole = prefix i ++ (b ++ suffix r) in
        let shown : configure spec i b r ≡ record {
          spec = spec;
          backend = b;
          interface = i;
          renderer = r;
          tinygrad_device = b;
          dev = whole;
        } =
          rw miss refl in
        let shown' : configure whole i b r ≡ record {
          spec = whole;
          backend = b;
          interface = i;
          renderer = r;
          tinygrad_device = b;
          dev = whole;
        } =
          rw miss refl in
        subst (λ (z : Device). parse_text upper strip z.dev ≡ record z { spec = z.dev }) (sym shown)
          (parse_shown upper strip is i b r name name' fixed absent apart ∙ shown')
  ]

  suffix_absent :
      (r : Option Text)
      → contains plus (suffix r) ≡ false
      → contains plus (suffix (upper_name upper strip r)) ≡ false
  suffix_absent none h = refl
  suffix_absent (some []) h = refl
  suffix_absent (some (c ∷ t)) h =
      let (d, s, e) = is.nonempty c t in
      let kept : contains plus (upper (c ∷ t)) ≡ false =
        is.keeps plus (c ∷ t) (inl refl) (ground (arith, h)) in
      let kept' : contains plus (d ∷ s) ≡ false = ap (contains plus) (sym e) ∙ kept in
      rw e (ground (arith, kept'))

  -- The parts of the rest.
  rest_parts :
      (rest : Text)
      → (b : Text) × (r : Option Text) × (renderer_part (cut colon rest) rest ≡ (b, r))
        × (contains colon b ≡ false)
        × (contains plus rest ≡ false
            → contains plus (upper b ++ suffix (upper_name upper strip r)) ≡ false)
  rest_parts rest = elim (Option-cases (cut colon rest)) [
    | inl whole ↦ (
      rest,
      none,
      rw whole refl,
      cut-none colon rest whole,
      λ h. contains_append plus (upper rest) [] (is.keeps plus rest (inl refl) h) refl,
    )
    | inr ((b, r), split) ↦
        let joined = cut_join colon rest b r split in
        (
          b,
          some r,
          rw split refl,
          cut-some colon rest b r split,
          λ h.
              let (first, second) =
                contains_parts plus b (colon ∷ r) (ap (contains plus) (sym joined) ∙ h) in
              contains_append plus (upper b) (suffix (upper_name upper strip (some r)))
                (is.keeps plus b (inl refl) first) (suffix_absent (some r) (tail_absent r second)),
        )
  ]
    where
      tail_absent :
          (r : Text) → contains plus (colon ∷ r) ≡ false → contains plus (suffix (some r)) ≡ false
      tail_absent [] h = refl
      tail_absent (c ∷ t) h = h

  -- The interface is the first part.
  spec_parts :
      (spec : Text)
      → begins plus spec ≡ false
      → (iface : Option Text) × (rest : Text) × (interface_part (cut plus spec) spec
          ≡ (iface, rest))
        × ((b : Text) (r : Option Text)
            → (contains plus rest ≡ false → contains plus (b ++ suffix r) ≡ false)
            → Apart upper strip is (upper_name upper strip iface) b r)
  unfolding Apart
  spec_parts spec h = elim (Option-cases (cut plus spec)) [
    | inl whole ↦ (none, spec, rw whole refl, λ b r k. k (cut-none plus spec whole))
    | inr ((a, rest), split) ↦ (
      some a,
      rest,
      rw split refl,
      front a rest (cut_join plus spec a rest split) (cut-some plus spec a rest split),
    )
  ]
    where
      front :
          (a rest : Text)
          → spec ≡ a ++ (plus ∷ rest)
          → contains plus a ≡ false
          → (b : Text) (r : Option Text)
          → (contains plus rest ≡ false → contains plus (b ++ suffix r) ≡ false)
          → Apart upper strip is (upper_name upper strip (some a)) b r
      front [] rest joined absent b r k =
          let starts : begins plus (plus ∷ rest) ≡ false = ap (begins plus) (sym joined) ∙ h in
          absurd (ground (arith, starts))
      front (c ∷ t) rest joined absent b r k = is.keeps plus (c ∷ t) (inl refl) absent

  parse_text-again :
      (spec : Text)
      → begins plus spec ≡ false
      → parse_text upper strip (parse_text upper strip spec).dev
        ≡ record (parse_text upper strip spec) { spec = (parse_text upper strip spec).dev }
  parse_text-again spec h =
      let (iface, rest, cuts, apart) = spec_parts spec h in
      let (b, r, cuts', absent, plus_absent) = rest_parts rest in
      let parsed = configure_parts upper strip is spec iface rest b r cuts cuts' in
      rw parsed (
        dev_again spec (upper_name upper strip iface) (upper b) (upper_name upper strip r)
          (upper_name-IsName upper strip is iface) (upper_name-IsName upper strip is r) (is.again b)
          (is.keeps colon b (inr refl) absent)
          (apart (upper b) (upper_name upper strip r) plus_absent))

  -- The string of "dev" that `parse_device` gives parses to the same device, for a device
  -- string that does not begin with `+` and whose "dev" is neither empty nor changed by
  -- `strip`; where `upper` is idempotent, puts in neither `+` nor `:`, leaves no string empty
  -- that was not, and leaves `KFD` and `LLVM` alone.
  pub parse_device-again :
      (spec : Option Text) (c : ℕ) (t : Text)
      → begins plus (or_text (strip (or_empty spec)) cpu) ≡ false
      → (parse_device upper strip spec).dev ≡ c ∷ t
      → strip (c ∷ t) ≡ c ∷ t
      → parse_device upper strip (some (parse_device upper strip spec).dev)
        ≡ record (parse_device upper strip spec) { spec = (parse_device upper strip spec).dev }
  unfolding parse_device
  parse_device-again spec c t h shown bare =
      let text = or_text (strip (or_empty spec)) cpu in
      let same : or_text (strip (parse_text upper strip text).dev) cpu
          ≡ (parse_text upper strip text).dev =
        rw (shown, bare) refl in
      ap (parse_text upper strip) same ∙ parse_text-again text h
