-- ===== src/Json/Laws.antt =====
-- What a dictionary holds after a write.
use aws_autorecycle.Base.{String, ◌≡◌, refl, some, arith, ◌==◌, eq_iff, if◌then◌else◌}
use aws_autorecycle.Json.{Json, Fields, end, field, lookup, insert}

pub lookup-insert :
    (j k : String) (v : Json) (d : Fields)
    → lookup j (insert k v d) ≡ (if k == j then some v else lookup j d)
unfolding lookup insert
lookup-insert j k v end = refl
lookup-insert j k v (field i w d) =
    ground (arith, lookup-insert j k v d, eq_iff k j, eq_iff i k, eq_iff i j)
