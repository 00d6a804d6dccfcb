-- ===== src/Http/Laws.antt =====
-- Laws of the headers.
use apicorex.Base.{◌≡◌, refl, [], ◌∷◌, arith, if◌then◌else◌}
use apicorex.Text.{Bytes, ◌==◌}
use apicorex.Text.Laws.{==_iff}
use apicorex.Http.{Headers, first_value, without}

pub first_value-without :
    (k j : Bytes) (h : Headers)
    → first_value j (without k h) ≡ (if k == j then [] else first_value j h)
unfolding first_value without
first_value-without k j [] = ground arith
first_value-without k j ((i, v) ∷ h) =
    ground (arith, first_value-without k j h, ==_iff i k, ==_iff i j, ==_iff k j)

pub first_value-cons :
    (k j v : Bytes) (h : Headers)
    → first_value j ((k, v) ∷ h) ≡ (if k == j then v else first_value j h)
unfolding first_value
first_value-cons k j v h = refl

pub ruleset header_laws = (first_value-without, first_value-cons)
