-- ===== src/Base/Text.antt =====
-- Decimal numerals, as a template literal prints a number.
use Prim.Native.String.{String, ◌++◌}
use xlm_pay.Base.{ℕ, zero, suc, ◌/◌, ◌%◌, ◌≡◌, refl, ltb, if◌then◌else◌}

digit : ℕ → String
digit n =
    if ltb n 1
    then "0"
    else if ltb n 2
    then "1"
    else if ltb n 3
    then "2"
    else if ltb n 4
    then "3"
    else if ltb n 5
    then "4"
    else if ltb n 6
    then "5"
    else if ltb n 7
    then "6"
    else if ltb n 8
    then "7"
    else if ltb n 9
    then "8"
    else "9"

-- A number has at most as many digits as its value plus one.
show_fuel : ℕ → ℕ → String
unfolding digit
show_fuel zero n = digit n
show_fuel (suc f) n =
    let rest = show_fuel f (n / 10) in if ltb n 10 then digit n else rest ++ digit (n % 10)

unfoldable pub show_nat : ℕ → String
unfolding show_fuel
show_nat n = show_fuel n n

show_nat_test : show_nat 1070 ≡ "1070"
unfolding show_nat
show_nat_test = refl
