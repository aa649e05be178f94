-- ===== src/Serializer/Tests.antt =====
-- Runs of src/serializer.rs on concrete fields.
use fix_engine.Base.{Bytes, [], arith, codes, replicate, ◌∷◌, ◌≡◌}
use fix_engine.Decimal.{decimal}
use fix_engine.Message.Numbers.{signed_decimal}
use fix_engine.Serializer.Build.{build_new_order_single}
use fix_engine.Serializer.Builders.{build_new_order_single_lem}
use fix_engine.Serializer.Contract.{serialized}
use fix_engine.Serializer.Writers.{wire}

abbrev space : Bytes
space = replicate 300 0

abbrev fix44 : Bytes
fix44 = codes "FIX.4.4"

abbrev buyer : Bytes
buyer = codes "BUY"

abbrev seller : Bytes
seller = codes "SELL"

abbrev noon : Bytes
noon = codes "20240101-12:00:00"

build_new_order_single_lem_example :
    build_new_order_single space fix44 buyer seller 2 noon
      (codes "O1")
      (codes "AAPL")
      b'1'
      100
      b'2'
      (codes "150.25")
    ≡ serialized space fix44 (codes "D") (
        wire (
          (49, buyer)
          ∷ (56, seller)
          ∷ (34, decimal 2)
          ∷ (52, noon)
          ∷ (11, codes "O1")
          ∷ (55, codes "AAPL")
          ∷ (54, b'1' ∷ [])
          ∷ (38, signed_decimal 100)
          ∷ (40, b'2' ∷ [])
          ∷ (44, codes "150.25")
          ∷ (60, noon)
          ∷ (21, codes "1")
          ∷ []))
build_new_order_single_lem_example =
    build_new_order_single_lem space fix44 buyer seller 2 noon (codes "O1") (codes "AAPL") b'1' 100
      b'2' (codes "150.25") (omega arith) (omega arith)
