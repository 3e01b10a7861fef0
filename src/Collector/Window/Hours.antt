-- ===== src/Collector/Window/Hours.antt =====
-- The hour of an instant, hourBounds of edge-device/sensor-collector/src/aggregation.ts.
use midnight_buildathons_bac.Prelude.{◌≡◌, refl, sym, ap, ◌∙◌, subst, arith, inl, inr, ◌⊎◌}
use midnight_buildathons_bac.Prelude.Int.{
  ℤ, pos, ◌+ℤ◌, ◌-ℤ◌, scale, div_floor, ◌≤ℤ◌, ◌<ℤ◌, int_laws, div_floor_bounds,
}
use midnight_buildathons_bac.Prelude.Results.{ok}
use midnight_buildathons_bac.Protocol.Day.{hour_ms, minute_ms}
use midnight_buildathons_bac.Collector.Window.{HourBounds, hour_bounds}

div_floor_hour :
    (a : ℤ)
    → (scale hour_ms (div_floor a hour_ms) ≤ℤ a)
      × (a <ℤ scale hour_ms (div_floor a hour_ms) +ℤ pos hour_ms)
div_floor_hour a = div_floor_bounds a hour_ms (omega arith)

-- Two counts of hours whose hours share an instant are equal.
hour_unique :
    (k m a : ℤ)
    → scale hour_ms k ≤ℤ a
    → a <ℤ scale hour_ms k +ℤ pos hour_ms
    → scale hour_ms m ≤ℤ a
    → a <ℤ scale hour_ms m +ℤ pos hour_ms
    → k ≡ m
hour_unique k m a p q r s = omega int_laws

-- The hour of an instant, for a valid first minute of the day.
abbrev pub hour_start : ℤ → ℤ → ℤ
hour_start t d = scale hour_ms (div_floor (t -ℤ scale minute_ms d) hour_ms) +ℤ scale minute_ms d

abbrev pub hour_of : ℤ → ℤ → HourBounds
hour_of t d = record { start = hour_start t d; end = hour_start t d +ℤ pos hour_ms }

pub hour_bounds-eq-ok : (t d : ℤ) → pos 0 ≤ℤ d → d ≤ℤ pos 1439 → hour_bounds t d ≡ ok (hour_of t d)
unfolding hour_bounds
hour_bounds-eq-ok t d low high = ground arith

pub hour_bounds-inversion :
    (t d : ℤ) (b : HourBounds)
    → hour_bounds t d ≡ ok b
    → (pos 0 ≤ℤ d) × (d ≤ℤ pos 1439) × (hour_of t d ≡ b)
unfolding hour_bounds
hour_bounds-inversion t d b e = ground arith

pub hour_start-contains : (t d : ℤ) → (hour_start t d ≤ℤ t) × (t <ℤ hour_start t d +ℤ pos hour_ms)
hour_start-contains t d = omega (int_laws, div_floor_hour (t -ℤ scale minute_ms d))

hour_start_unique :
    (t u d : ℤ)
    → hour_start t d ≤ℤ u
    → u <ℤ hour_start t d +ℤ pos hour_ms
    → hour_start u d ≡ hour_start t d
hour_start_unique t u d low high =
    let same : div_floor (u -ℤ scale minute_ms d) hour_ms
        ≡ div_floor (t -ℤ scale minute_ms d) hour_ms =
      hour_unique _ _ (u -ℤ scale minute_ms d) ((div_floor_hour (u -ℤ scale minute_ms d)).0)
        ((div_floor_hour (u -ℤ scale minute_ms d)).1) (omega int_laws) (omega int_laws) in
    rw same

-- A whole minute from 0 to 1439 as the first of the day makes `hour_bounds` return, for every
-- instant, an hour that has it: not before its start, before its end, one hour later.
pub hour_bounds-contains :
    (t d : ℤ)
    → pos 0 ≤ℤ d
    → d ≤ℤ pos 1439
    → (b : HourBounds) × (hour_bounds t d ≡ ok b)
      × (b.start ≤ℤ t)
      × (t <ℤ b.end)
      × (b.end ≡ b.start +ℤ pos hour_ms)
hour_bounds-contains t d low high =
    let c = hour_start-contains t d in (hour_of t d, hour_bounds-eq-ok t d low high, c.0, c.1, refl)

-- Every instant of an hour that `hour_bounds` returned gets that same hour, for the same first
-- minute of the day.
pub hour_bounds-same :
    (t u d : ℤ) (b : HourBounds)
    → hour_bounds t d ≡ ok b
    → b.start ≤ℤ u
    → u <ℤ b.end
    → hour_bounds u d ≡ ok b
hour_bounds-same t u d b e low high =
    let inv = hour_bounds-inversion t d b e in
    let at_t : hour_of t d ≡ b = inv.2 in
    let start_of : hour_start t d ≡ b.start = ap (λ x. x.start) at_t in
    let end_of : hour_start t d +ℤ pos hour_ms ≡ b.end = ap (λ x. x.end) at_t in
    let same : hour_start u d ≡ hour_start t d =
      hour_start_unique t u d (subst (λ x. x ≤ℤ u) (sym start_of) low)
        (subst (λ x. u <ℤ x) (sym end_of) high) in
    hour_bounds-eq-ok u d inv.0 inv.1 ∙ rw same (ap ok at_t)

order_cases : (a b : ℤ) → (a ≤ℤ b) ⊎ (b <ℤ a)
order_cases a b = ground arith

-- For a whole minute from 0 to 1439 as the first of the day, every instant gets an hour that contains
-- it, and any other instant lies outside that hour or gets the same one.
pub hour_bounds-partition :
    (t u d : ℤ)
    → pos 0 ≤ℤ d
    → d ≤ℤ pos 1439
    → (b : HourBounds) × (hour_bounds t d ≡ ok b)
      × (b.start ≤ℤ t)
      × (t <ℤ b.end)
      × (b.end ≡ b.start +ℤ pos hour_ms)
      × ((u <ℤ b.start) ⊎ ((b.end ≤ℤ u) ⊎ (hour_bounds u d ≡ ok b)))
hour_bounds-partition t u d low high =
    let c = hour_bounds-contains t d low high in
    let b = c.0 in
    (
      b,
      c.1,
      c.2,
      c.3,
      c.4,
      elim (order_cases b.start u) [
        | inr before ↦ inl before
        | inl from ↦ elim (order_cases b.end u) [
          | inl after ↦ inr (inl after)
          | inr inside ↦ inr (inr (hour_bounds-same t u d b c.1 from inside))
        ]
      ],
    )
