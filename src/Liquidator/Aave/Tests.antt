-- ===== src/Liquidator/Aave/Tests.antt =====
-- The unit tests of crates/liquidator/src/aave.rs, and the theorems at concrete inputs.
use alpharouting.Prelude.{◌≡◌, refl, Bool, true, false, none, some, List, [], ◌∷◌, arith}
use alpharouting.Liquidator.Aave.{ReserveFlags, debug, release, flags_at, decode_user_configuration}
use alpharouting.Liquidator.Aave.Decode.{bitmap_of, decode-bitmap_of, decode_beyond}

abbrev flags : Bool → Bool → ReserveFlags
flags b c = record { borrowing = b; collateral = c }

-- Reserve 0 borrowed (bit 0) and reserve 2 used as collateral (bit 5).
abbrev mixed : List ReserveFlags
mixed = flags true false ∷ flags false false ∷ flags false true ∷ []

decodes_borrow_and_collateral_together : decode_user_configuration debug 0b100001 3 ≡ some mixed
unfolding decode_user_configuration
decodes_borrow_and_collateral_together = refl

decode-bitmap_of_example : decode_user_configuration release (bitmap_of mixed) 3 ≡ some mixed
decode-bitmap_of_example = decode-bitmap_of release mixed (omega arith)

decode_beyond_example :
    (decode_user_configuration debug 0b100001 70 ≡ none)
    × (flags_at release 0b100001 66 ≡ flags_at release 0b100001 2)
decode_beyond_example = decode_beyond 0b100001 70 2 (omega arith) (omega arith)
