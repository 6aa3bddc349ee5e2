-- ===== src/Prelude/Show.antt =====
-- A number in a template literal, in decimal.
use Prim.Native.Nat.{ℕ, zero, suc, ◌/◌, ◌%◌}
use Prim.Native.String
use Prim.Native.String.{String}
use ecommerce_microservice.Prelude.Tests.{◌==◌, ltb, if◌then◌else◌}
use ecommerce_microservice.Prelude.Int.{ℤ, pos, negsuc}

show_digit : ℕ → String
show_digit n =
    if n == 0
    then "0"
    else if n == 1
    then "1"
    else if n == 2
    then "2"
    else if n == 3
    then "3"
    else if n == 4
    then "4"
    else if n == 5
    then "5"
    else if n == 6
    then "6"
    else if n == 7
    then "7"
    else if n == 8
    then "8"
    else "9"

-- The fuel `suc n` is enough: each round divides the number by ten.
show_fuel : ℕ → ℕ → String
show_fuel zero n = ""
show_fuel (suc f) n =
    let longer = String.◌++◌ (show_fuel f (n / 10)) (show_digit (n % 10)) in
    if ltb n 10 then show_digit n else longer

unfoldable pub show : ℕ → String
unfolding show_fuel show_digit
show n = show_fuel (suc n) n

unfoldable pub show_int : ℤ → String
unfolding show
show_int (pos n) = show n
show_int (negsuc n) = String.◌++◌ "-" (show (suc n))
