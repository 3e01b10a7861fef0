-- ===== src/Collector/Window/Laws.antt =====
-- What a window says of the measurements added to it.
use midnight_buildathons_bac.Prelude.{
  String, leb, ltb, ◌+◌, ◌≡◌, refl, ap, ◌∙◌, subst, true, List, [], ◌∷◌, length, All, arith, inl,
  inr,
}
use midnight_buildathons_bac.Prelude.Int.{ℤ, pos, ◌+ℤ◌, ◌≤ℤ◌, ◌<ℤ◌}
use midnight_buildathons_bac.Prelude.Num.{
  Num, pos_inf, neg_inf, num_zero, is_finite, num_le, num_min, num_max,
}
use midnight_buildathons_bac.Prelude.Results.{ok, ok-injective, Result-cases}
use midnight_buildathons_bac.Protocol.Day.{hour_ms}
use midnight_buildathons_bac.Collector.Window.Hours.{
  hour_of, hour_bounds-eq-ok, hour_bounds-inversion,
}
use midnight_buildathons_bac.Collector.Window.{
  Arithmetic, MeasurementWindowState, HourBounds, hour_bounds, create_measurement_window,
  add_measurement, empty_hash, MeasurementWindow, finalize_measurement_window,
}

-- What a window says of the values it was given, the last one first. A bound that is at most
-- itself is not NaN.
pub record IsSummary (w : MeasurementWindowState) (values : List Num) : Type 0 where
  pub counted : w.count ≡ length values
  pub low_real : num_le w.minimum w.minimum ≡ true
  pub high_real : num_le w.maximum w.maximum ≡ true
  pub low : All (λ v. num_le w.minimum v ≡ true) values
  pub high : All (λ v. num_le v w.maximum ≡ true) values
  pub hour : w.period_end ≡ w.period_start +ℤ pos hour_ms

num_le-num_min :
    (m v x : Num) → is_finite v ≡ true → num_le m x ≡ true → num_le (num_min m v) x ≡ true
num_le-num_min m v x f h = ground arith

num_le-num_max :
    (m v x : Num) → is_finite v ≡ true → num_le x m ≡ true → num_le x (num_max m v) ≡ true
num_le-num_max m v x f h = ground arith

num_min_le :
    (m v : Num)
    → is_finite v ≡ true
    → num_le m m ≡ true
    → (num_le (num_min m v) v ≡ true) × (num_le (num_min m v) (num_min m v) ≡ true)
num_min_le m v f h = ground arith

num_max_ge :
    (m v : Num)
    → is_finite v ≡ true
    → num_le m m ≡ true
    → (num_le v (num_max m v) ≡ true) × (num_le (num_max m v) (num_max m v) ≡ true)
num_max_ge m v f h = ground arith

low-num_min :
    (m v : Num) (xs : List Num)
    → is_finite v ≡ true
    → All (λ x. num_le m x ≡ true) xs
    → All (λ x. num_le (num_min m v) x ≡ true) xs
low-num_min m v [] f h = tt
low-num_min m v (x ∷ xs) f h = (num_le-num_min m v x f h.0, low-num_min m v xs f h.1)

high-num_max :
    (m v : Num) (xs : List Num)
    → is_finite v ≡ true
    → All (λ x. num_le x m ≡ true) xs
    → All (λ x. num_le x (num_max m v) ≡ true) xs
high-num_max m v [] f h = tt
high-num_max m v (x ∷ xs) f h = (num_le-num_max m v x f h.0, high-num_max m v xs f h.1)

abbrev pub fresh_window : HourBounds → MeasurementWindowState
fresh_window b = record {
  period_start = b.start;
  period_end = b.end;
  count = 0;
  minimum = pos_inf;
  maximum = neg_inf;
  sum = num_zero;
  hash_chain = empty_hash;
}

pub create_measurement_window-inversion :
    (t d : ℤ) (w : MeasurementWindowState)
    → create_measurement_window t d ≡ ok w
    → (pos 0 ≤ℤ d) × (d ≤ℤ pos 1439) × (fresh_window (hour_of t d) ≡ w)
unfolding create_measurement_window
create_measurement_window-inversion t d w e = elim (Result-cases (hour_bounds t d)) [
  | inr (m, bad) ↦ cc (rw bad at e)
  | inl (b, good) ↦
      let inv = hour_bounds-inversion t d b good in
      let made : fresh_window b ≡ w = ok-injective _ _ (rw good at e) in
      (inv.0, inv.1, ap fresh_window inv.2 ∙ made)
]

pub create_measurement_window-eq-ok :
    (t d : ℤ)
    → pos 0 ≤ℤ d
    → d ≤ℤ pos 1439
    → create_measurement_window t d ≡ ok (fresh_window (hour_of t d))
unfolding create_measurement_window
create_measurement_window-eq-ok t d low high = rw (hour_bounds-eq-ok t d low high)

pub create_measurement_window-IsSummary :
    (t d : ℤ) (w : MeasurementWindowState) → create_measurement_window t d ≡ ok w → IsSummary w []
create_measurement_window-IsSummary t d w e =
    subst (λ x. IsSummary x []) (create_measurement_window-inversion t d w e).2
      (record {
        counted = refl;
        low_real = refl;
        high_real = refl;
        low = tt;
        high = tt;
        hour = refl;
      })

module _ (a : Arithmetic) where
  abbrev pub with_measurement : MeasurementWindowState → Num → ℤ → MeasurementWindowState
  with_measurement w v t = record w {
    count = w.count + 1;
    minimum = num_min w.minimum v;
    maximum = num_max w.maximum v;
    sum = a.add w.sum v;
    hash_chain = a.next_hash w.hash_chain t v;
  }

  pub add_measurement-inversion :
      (w w' : MeasurementWindowState) (v : Num) (t : ℤ)
      → add_measurement a w v t ≡ ok w'
      → (w.period_start ≤ℤ t) × (t <ℤ w.period_end) × (with_measurement w v t ≡ w')
  unfolding add_measurement
  add_measurement-inversion w w' v t e = ground arith

  pub add_measurement-eq-ok :
      (w : MeasurementWindowState) (v : Num) (t : ℤ)
      → w.period_start ≤ℤ t
      → t <ℤ w.period_end
      → add_measurement a w v t ≡ ok (with_measurement w v t)
  unfolding add_measurement
  add_measurement-eq-ok w v t low high = ground arith

  -- A window that sums up some values (their number, a minimum not above and a maximum not below
  -- any of them, neither of them NaN, an end one hour after the start) still does when
  -- `add_measurement` has taken one more finite value.
  pub add_measurement-IsSummary :
      (w w' : MeasurementWindowState) (v : Num) (t : ℤ) (values : List Num)
      → is_finite v ≡ true
      → IsSummary w values
      → add_measurement a w v t ≡ ok w'
      → IsSummary w' (v ∷ values)
  add_measurement-IsSummary w w' v t values f s e =
      let least = num_min_le w.minimum v f s.low_real in
      let greatest = num_max_ge w.maximum v f s.high_real in
      let added : IsSummary (with_measurement w v t) (v ∷ values) = record {
        counted = omega (arith, s.counted);
        low_real = least.1;
        high_real = greatest.1;
        low = (least.0, low-num_min w.minimum v values f s.low);
        high = (greatest.0, high-num_max w.maximum v values f s.high);
        hour = s.hour;
      } in
      subst (λ x. IsSummary x (v ∷ values)) (add_measurement-inversion w w' v t e).2 added

  pub finalize_measurement_window-full :
      (w : MeasurementWindowState) (project device policy : String)
      → ltb 0 w.count ≡ true
      → (m : MeasurementWindow) × (finalize_measurement_window a w project device policy ≡ ok m)
        × (m.count ≡ w.count)
        × (m.batch_id ≡ record { device_id = device; epoch = w.period_start })
  unfolding finalize_measurement_window
  finalize_measurement_window-full w project device policy full =
      let counted : leb 1 w.count ≡ true = ground arith in rw counted (_, refl, refl, refl)
