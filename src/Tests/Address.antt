-- ===== src/Tests/Address.antt =====
-- Addresses at concrete inputs.
use libmobile_atmega.Prelude.{◌≡◌, arith, none, some, [], ◌∷◌, ◌++◌}
use libmobile_atmega.Address.{MobileAddr, addr_none, addr4, address_write, address_read}
use libmobile_atmega.Address.RoundTrip.{address_read-address_write}

abbrev localhost : MobileAddr
localhost = addr4 5353 (127 ∷ 0 ∷ 0 ∷ 1 ∷ [])

address_read-address_write_example :
    (address_read (address_write (some localhost) ++ (9 ∷ [])) 8 ≡ some (7, some localhost))
    × (address_read (address_write none ++ (9 ∷ [])) 8 ≡ some (1, some addr_none))
unfolding address_write
address_read-address_write_example =
    address_read-address_write localhost (9 ∷ []) 8 (omega arith) (omega arith)
