-- ===== src/Protocol/Temperature.antt =====
-- shared/measurement-protocol/src/temperature.ts.
use midnight_buildathons_bac.Prelude.{
  ℕ, String, ◌≡◌, ◌<◌, ◌^◌, ◌↔◌, inl, inr, refl, sym, ap, ◌∙◌, Bool-cases, true, ◌||◌, arith,
  if◌then◌else◌,
}
use midnight_buildathons_bac.Prelude.Int.{ℤ, pos, negsuc, ◌+ℤ◌, ltb_ℤ, ◌≤ℤ◌, pos_part}
use midnight_buildathons_bac.Prelude.Num.{Num, fin, nan, neg_inf, pos_inf}
use midnight_buildathons_bac.Prelude.Results.{Result, ok, throw}

-- `Math.round(value * 100)` of a finite value. The product and the rounding keep the order; a
-- product that overflows stands for any number past the range that is tested below.
pub record Rounding : Type 0 where
  pub centi : ℤ → ℤ
  pub centi_mono : (a b : ℤ) → a ≤ℤ b → centi a ≤ℤ centi b

abbrev pub temperature_offset_centi : ℕ
temperature_offset_centi = 10_000

module _ (r : Rounding) where
  open r use {centi, centi_mono}

  unfoldable pub encode_temperature : Num → Result ℕ
  encode_temperature (fin value) =
      let encoded = centi value +ℤ pos temperature_offset_centi in
      if ltb_ℤ encoded (pos 0) || ltb_ℤ (pos 0xffff_ffff) encoded
      then throw "Temperature is outside the supported Uint<32> range"
      else ok (pos_part encoded)
  encode_temperature nan = throw "Temperature must be finite"
  encode_temperature neg_inf = throw "Temperature must be finite"
  encode_temperature pos_inf = throw "Temperature must be finite"

  in_range :
      (encoded : ℤ) (code : ℕ) (message : String)
      → ((if ltb_ℤ encoded (pos 0) || ltb_ℤ (pos 0xffff_ffff) encoded
            then throw message
            else ok (pos_part encoded))
          ≡ ok code)
        ↔ ((encoded ≡ pos code) × (code < 2 ^ 32))
  in_range (negsuc n) code message =
      let low : (ltb_ℤ (negsuc n) (pos 0) || ltb_ℤ (pos 0xffff_ffff) (negsuc n)) ≡ true =
        ground arith in
      ((λ h. let e = rw low at h in cc), (λ h. let e = h.0 in cc))
  in_range (pos n) code message =
      elim (Bool-cases (ltb_ℤ (pos n) (pos 0) || ltb_ℤ (pos 0xffff_ffff) (pos n))) [
        | inl large ↦ (
          (λ h. let e = rw large at h in cc),
          (λ h. let same : n ≡ code = let e = h.0 in cc in ground (arith, h.1)),
        )
        | inr small ↦ (
          (λ h. let same : n ≡ code = let e = rw small at h in cc in (ap pos same, ground arith)),
          (λ h. let same : n ≡ code = let e = h.0 in cc in rw small (ap ok same)),
        )
      ]

  -- A value has the code exactly when it is a finite number and the code is its rounded hundredfold plus
  -- 10000, which is not negative and fits in 32 bits; so every other value throws.
  pub encode_temperature_lem :
      (value : Num) (code : ℕ)
      → (encode_temperature value ≡ ok code)
        ↔ ((x : ℤ) × (value ≡ fin x) × (centi x +ℤ pos 10000 ≡ pos code) × (code < 2 ^ 32))
  unfolding encode_temperature
  encode_temperature_lem nan code = ((λ h. cc), (λ h. let e = h.1 in cc))
  encode_temperature_lem neg_inf code = ((λ h. cc), (λ h. let e = h.1 in cc))
  encode_temperature_lem pos_inf code = ((λ h. cc), (λ h. let e = h.1 in cc))
  encode_temperature_lem (fin value) code =
      let range =
        in_range (centi value +ℤ pos 10000) code
          "Temperature is outside the supported Uint<32> range" in
      (
        (λ h. let r = range.0 h in (value, refl, r.0, r.1)),
        (λ (x, same, sum, small).
            let here : x ≡ value = cc in
            range.1 (ap (λ y. centi y +ℤ pos 10000) (sym here) ∙ sum, small)),
      )

  -- What lies between two temperatures that can be encoded can be encoded.
  pub encode_temperature_between :
      (a b c : ℤ) (m n : ℕ)
      → a ≤ℤ b
      → b ≤ℤ c
      → encode_temperature (fin a) ≡ ok m
      → encode_temperature (fin c) ≡ ok n
      → (k : ℕ) × (encode_temperature (fin b) ≡ ok k)
  unfolding encode_temperature ◌+ℤ◌
  encode_temperature_between a b c m n h k p q = (
    pos_part (centi b +ℤ pos temperature_offset_centi),
    ground (arith, centi_mono a b h, centi_mono b c k),
  )
