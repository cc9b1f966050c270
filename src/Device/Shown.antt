-- ===== src/Device/Shown.antt =====
-- Device strings that are put together, parsed again.
use nx_tinygrad.Base.{
  ℕ, ◌≡◌, refl, sym, ap, ◌∙◌, false, none, some, Option, [], ◌∷◌, ◌++◌, append_assoc, append-nil,
  inl, inr, ◌⊎◌,
}
use nx_tinygrad.Dict.PopAll.{contains}
use nx_tinygrad.Device.{
  Text, plus, colon, kfd, llvm, cut, interface_part, renderer_part, or_name, prefix, suffix,
  configure, upper_name, parse_text,
}
use nx_tinygrad.Device.Cut.{cut_absent, cut-append}

-- What the source relies on in `str.upper`.
pub record IsUpper (upper : Text → Text) : Type 0 where
  pub again : (t : Text) → upper (upper t) ≡ upper t
  pub keeps :
      (c : ℕ) (t : Text)
      → (c ≡ plus) ⊎ (c ≡ colon)
      → contains c t ≡ false
      → contains c (upper t) ≡ false
  pub nonempty : (c : ℕ) (t : Text) → (d : ℕ) × (s : Text) × (upper (c ∷ t) ≡ d ∷ s)
  pub upper_kfd : upper kfd ≡ kfd
  pub upper_llvm : upper llvm ≡ llvm

module _ (upper strip : Text → Text) (is : IsUpper upper) where
  -- A part that `upper` leaves alone: missing, or not empty.
  unfoldable pub IsName : Option Text → Type 0
  IsName name =
      (name ≡ none) ⊎ ((d : ℕ) × (s : Text) × (name ≡ some (d ∷ s)) × (upper (d ∷ s) ≡ d ∷ s))

  pub upper_name-IsName : (name : Option Text) → IsName (upper_name upper strip name)
  unfolding IsName
  upper_name-IsName none = inl refl
  upper_name-IsName (some []) = inl refl
  upper_name-IsName (some (c ∷ t)) =
      let (d, s, e) = is.nonempty c t in
      inr (d, s, ap some e, ap upper (sym e) ∙ is.again (c ∷ t) ∙ e)

  -- The rest behind the interface.
  parse_rest :
      (b : Text) (r : Option Text)
      → contains colon b ≡ false
      → upper b ≡ b
      → IsName r
      → (b' : Text) × (r' : Option Text) × (renderer_part
            (cut colon (b ++ suffix r))
            (b ++ suffix r)
          ≡ (b', r'))
        × (upper b' ≡ b)
        × (upper_name upper strip r' ≡ r)
  unfolding IsName
  parse_rest b r absent fixed (inl e) =
      let whole : b ++ suffix r ≡ b = ap (λ z. b ++ suffix z) e ∙ append-nil b in
      let cuts : cut colon b ≡ none = cut_absent colon b absent in
      (b, none, rw (whole, cuts) refl, fixed, sym e)
  parse_rest b r absent fixed (inr (d, s, e, same)) =
      let cuts : cut colon (b ++ suffix r) ≡ some (b, d ∷ s) =
        ap (λ z. cut colon (b ++ suffix z)) e ∙ cut-append colon b (d ∷ s) absent in
      (b, some (d ∷ s), rw cuts refl, fixed, ap some same ∙ sym e)

  -- The first separator of the string is where it is put.
  unfoldable pub Apart : Option Text → Text → Option Text → Type 0
  Apart none b r = contains plus (b ++ suffix r) ≡ false
  Apart (some t) b r = contains plus t ≡ false

  pub configure_parts :
      (spec : Text) (iface : Option Text) (rest backend : Text) (renderer : Option Text)
      → interface_part (cut plus spec) spec ≡ (iface, rest)
      → renderer_part (cut colon rest) rest ≡ (backend, renderer)
      → parse_text upper strip spec
        ≡ configure spec
            (upper_name upper strip iface)
            (upper backend)
            (upper_name upper strip renderer)
  unfolding parse_text
  configure_parts spec iface rest backend renderer e e' = rw (e, e') refl

  pub parse_shown :
      (i : Option Text) (b : Text) (r : Option Text)
      → IsName i
      → IsName r
      → upper b ≡ b
      → contains colon b ≡ false
      → Apart i b r
      → parse_text upper strip (prefix i ++ (b ++ suffix r))
        ≡ configure (prefix i ++ (b ++ suffix r)) i b r
  unfolding IsName Apart
  parse_shown none b r name name' fixed absent apart =
      let (b', r', parts, e, e') = parse_rest b r absent fixed name' in
      let whole = b ++ suffix r in
      let cuts : interface_part (cut plus whole) whole ≡ (none, whole) =
        rw (cut_absent plus whole apart) refl in
      configure_parts whole none whole b' r' cuts parts ∙ rw (e, e') refl
  parse_shown (some []) b r (inl e) name' fixed absent apart = cc e
  parse_shown (some []) b r (inr (d, s, e, same)) name' fixed absent apart = cc e
  parse_shown (some (c ∷ t)) b r (inl e) name' fixed absent apart = cc e
  parse_shown (some (c ∷ t)) b r (inr (d, s, e, same)) name' fixed absent apart =
      let (b', r', parts, e1, e2) = parse_rest b r absent fixed name' in
      let rest = b ++ suffix r in
      let whole = prefix (some (c ∷ t)) ++ rest in
      let shape : whole ≡ (c ∷ t) ++ (plus ∷ rest) = append_assoc (c ∷ t) (plus ∷ []) rest in
      let cuts : interface_part (cut plus whole) whole ≡ (some (c ∷ t), rest) =
        rw (ap (cut plus) shape ∙ cut-append plus (c ∷ t) rest apart) refl in
      let fixed' : upper (c ∷ t) ≡ c ∷ t = cc (e, same) in
      configure_parts whole (some (c ∷ t)) rest b' r' cuts parts ∙ rw (e1, e2, fixed') refl

  pub or_name_lem :
      (name : Option Text) (d : ℕ) (s : Text)
      → IsName name
      → upper (d ∷ s) ≡ d ∷ s
      → contains plus (d ∷ s) ≡ false
      → (e : ℕ) × (u : Text) × (or_name name (d ∷ s) ≡ e ∷ u) × (upper (e ∷ u) ≡ e ∷ u)
  unfolding IsName
  or_name_lem name d s (inl missing) fixed absent = (d, s, rw missing refl, fixed)
  or_name_lem name d s (inr (e, u, there, fixed')) fixed absent = (e, u, rw there refl, fixed')

  pub interface-Apart :
      (i : Option Text) (b : Text) (r : Option Text)
      → IsName i
      → Apart i b r
      → contains plus (or_name i kfd) ≡ false
  unfolding IsName Apart
  interface-Apart none b r name apart = refl
  interface-Apart (some []) b r name apart = refl
  interface-Apart (some (c ∷ t)) b r name apart = apart
