-- ===== src/App/Range.antt =====
-- opendnp3/app/Range.h: the indices from `start` to `stop`, and none of them where `start` is above.
use dnp.Prelude.{
  ℕ, suc, ◌+◌, ◌-◌, Bool, true, false, ◌&&◌, if◌then◌else◌, ◌==◌, ltb, leb, ◌≡◌, arith,
}

pub record Range : Type 0 where
  pub start : ℕ
  pub stop : ℕ

unfoldable pub is_valid : Range → Bool
is_valid r = leb r.start r.stop

unfoldable pub count : Range → ℕ
count r = if is_valid r then r.stop - r.start + 1 else 0

-- `Advance`: whether there was an index to leave, and the range without it.
unfoldable pub advance : Range → Bool × Range
advance r =
    if is_valid r
    then (if ltb r.start r.stop
        then (true, record r { start = r.start + 1 })
        else (true, record { start = 1; stop = 0 }))
    else (false, r)

abbrev max : ℕ → ℕ → ℕ
max a b = if ltb b a then a else b

abbrev lower : ℕ → ℕ → ℕ
lower a b = if ltb a b then a else b

unfoldable pub intersection : Range → Range → Range
intersection r s = record { start = max r.start s.start; stop = lower r.stop s.stop }

-- `Union`.
unfoldable pub hull : Range → Range → Range
hull r s = record { start = lower r.start s.start; stop = max r.stop s.stop }

unfoldable pub equals : Range → Range → Bool
equals r s = (s.start == r.start) && (s.stop == r.stop)

unfoldable pub is_one_byte : Range → Bool
is_one_byte r = is_valid r && leb r.start 255 && leb r.stop 255

-- An index of the range.
abbrev pub contains : Range → ℕ → Bool
contains r i = leb r.start i && leb i r.stop

pub contains-intersection :
    (r s : Range) (i : ℕ) → contains (intersection r s) i ≡ (contains r i && contains s i)
unfolding intersection
contains-intersection r s i = ground arith

pub count-advance : (r : Range) → is_valid r ≡ true → suc (count (advance r).1) ≡ count r
unfolding advance count is_valid
count-advance r h = ground (arith, h)
