-- ===== src/Keys.antt =====
-- Idempotency keys that the platform derives (app/ledger.py, `system_key`), and the texts of ids.
pub mod Disjoint
use Prim.Native.String.{◌++◌}
use Prim.Native.Nat.{◌/◌, ◌%◌}
use forgeapi_homelab.Prelude.{ℕ, zero, suc, ◌+◌, String, List, [], ◌∷◌, ltb, if◌then◌else◌}

abbrev pub digit : ℕ → String
digit zero = "0"
digit (suc zero) = "1"
digit (suc (suc zero)) = "2"
digit (suc (suc (suc zero))) = "3"
digit (suc (suc (suc (suc zero)))) = "4"
digit (suc (suc (suc (suc (suc zero))))) = "5"
digit (suc (suc (suc (suc (suc (suc zero)))))) = "6"
digit (suc (suc (suc (suc (suc (suc (suc zero))))))) = "7"
digit (suc (suc (suc (suc (suc (suc (suc (suc zero)))))))) = "8"
digit (suc (suc (suc (suc (suc (suc (suc (suc (suc zero))))))))) = "9"
digit (suc (suc (suc (suc (suc (suc (suc (suc (suc (suc n)))))))))) =
    if ltb n 1
    then "a"
    else if ltb n 2
    then "b"
    else if ltb n 3
    then "c"
    else if ltb n 4
    then "d"
    else if ltb n 5
    then "e"
    else "f"

-- The last `w` hexadecimal digits of a number, and `uuid.hex` with an id's prefix.
unfoldable pub hex : ℕ → ℕ → String
hex zero n = ""
hex (suc w) n = hex w (n / 16) ++ digit (n % 16)

unfoldable pub app_text : ℕ → String
unfolding hex
app_text n = "app_" ++ hex 32 n

-- `str(n)`, with fuel for its digits.
unfoldable pub decimal : ℕ → ℕ → String
decimal zero n = ""
decimal (suc f) n =
    let front = decimal f (n / 10) in if ltb n 10 then digit n else front ++ digit (n % 10)

unfoldable pub str : ℕ → String
unfolding decimal
str n = decimal (suc n) n

-- `"|".join(parts)`.
unfoldable pub system_key : List String → String
system_key [] = ""
system_key (p ∷ []) = p
system_key (p ∷ q ∷ ps) = p ++ ("|" ++ system_key (q ∷ ps))
