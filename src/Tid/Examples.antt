-- ===== src/Tid/Examples.antt =====
-- Two record keys.
use opake.Base.{◌≡◌, true, length, nat_eq, arith}
use opake.Tid.{tid_from_micros}
use opake.Base.Order.{lex_less}
use opake.Tid.Order.{tid_from_micros-order}

tid_from_micros-order_example :
    (lex_less (tid_from_micros 1000000) (tid_from_micros 1700000000000000) ≡ true)
    × (length (tid_from_micros 1000000) ≡ 13)
tid_from_micros-order_example =
    tid_from_micros-order 1000000 1700000000000000 (omega arith) (omega arith)
