-- ===== src/Text.antt =====
-- Texts as their bytes: `String::from_utf8_lossy` of the Rust standard library, which
-- ktuctl-rs/src/netlink.rs and ktuctl-rs/src/helper.rs call, and `iter().position(|&c| c == 0)`.
pub mod Lines
pub mod Whitespace
pub mod Words
use Prim.Native.Char.{code}
use Prim.Native.String.{String}
use ktuctl_rs.Prelude.{
  ℕ, suc, zero, ◌≤◌, ◌<◌, ◌≡◌, refl, [], ◌∷◌, ◌++◌, Bool, true, false, ◌&&◌, ◌||◌, leb, ltb, ◌==◌,
  if◌then◌else◌, length, take, drop, All, arith,
}
use ktuctl_rs.Bytes.{Bytes}

-- The bytes of a literal, which is ASCII.
abbrev pub utf8 : String → Bytes
utf8 String.[] = []
utf8 (String.◌∷◌ c s) = code c ∷ utf8 s

-- `&bs[..position of the first 0, or bs.len()]`
unfoldable pub until_nul : Bytes → Bytes
until_nul [] = []
until_nul (c ∷ bs) = if c == 0 then [] else c ∷ until_nul bs

abbrev in_range : ℕ → ℕ → ℕ → Bool
in_range lo hi b = leb lo b && leb b hi

abbrev is_cont : ℕ → Bool
is_cont = in_range 0x80 0xbf

-- U+FFFD
abbrev pub replacement : Bytes → Bytes
replacement rest = 0xef ∷ 0xbf ∷ 0xbd ∷ rest

-- What may stand behind the first byte of a sequence of three or four.
second_of_three : ℕ → ℕ → Bool
second_of_three a b =
    (a == 0xe0 && in_range 0xa0 0xbf b)
    || ((in_range 0xe1 0xec a && is_cont b)
        || ((a == 0xed && in_range 0x80 0x9f b) || (in_range 0xee 0xef a && is_cont b)))

second_of_four : ℕ → ℕ → Bool
second_of_four a b =
    (a == 0xf0 && in_range 0x90 0xbf b)
    || ((in_range 0xf1 0xf3 a && is_cont b) || (a == 0xf4 && in_range 0x80 0x8f b))

-- A byte or a sequence at the front: how many bytes it has, and whether it is well formed. An
-- ill-formed one ends before the first byte that cannot continue it.
lossy_two : Bytes → ℕ × Bool
lossy_two [] = (1, false)
lossy_two (b ∷ bs) = if is_cont b then (2, true) else (1, false)

lossy_three : ℕ → Bytes → ℕ × Bool
unfolding second_of_three
lossy_three a [] = (1, false)
lossy_three a (b ∷ []) = if second_of_three a b then (2, false) else (1, false)
lossy_three a (b ∷ c ∷ bs) =
    if second_of_three a b then (if is_cont c then (3, true) else (2, false)) else (1, false)

lossy_four : ℕ → Bytes → ℕ × Bool
unfolding second_of_four
lossy_four a [] = (1, false)
lossy_four a (b ∷ []) = if second_of_four a b then (2, false) else (1, false)
lossy_four a (b ∷ c ∷ []) =
    if second_of_four a b then (if is_cont c then (3, false) else (2, false)) else (1, false)
lossy_four a (b ∷ c ∷ d ∷ bs) =
    if second_of_four a b
    then (if is_cont c then (if is_cont d then (4, true) else (3, false)) else (2, false))
    else (1, false)

unfoldable pub lossy_front : ℕ → Bytes → ℕ × Bool
unfolding lossy_two lossy_three lossy_four
lossy_front a bs =
    if ltb a 0x80
    then (1, true)
    else (if in_range 0xc2 0xdf a
        then lossy_two bs
        else (if in_range 0xe0 0xef a
            then lossy_three a bs
            else (if in_range 0xf0 0xf4 a then lossy_four a bs else (1, false))))

-- On fuel: a round takes a byte at least.
unfoldable pub lossy_loop : ℕ → Bytes → Bytes
unfolding lossy_front
lossy_loop zero bs = []
lossy_loop (suc fuel) [] = []
lossy_loop (suc fuel) (a ∷ bs) =
    let (n, good) = lossy_front a bs in
    let rest = lossy_loop fuel (drop n (a ∷ bs)) in
    if good then take n (a ∷ bs) ++ rest else replacement rest

unfoldable pub from_utf8_lossy : Bytes → Bytes
unfolding lossy_loop
from_utf8_lossy bs = lossy_loop (length bs) bs

-- A text of ASCII bytes is kept as it is.
lossy_loop_ascii :
    (fuel : ℕ) (bs : Bytes) → length bs ≤ fuel → All (λ b. b < 0x80) bs → lossy_loop fuel bs ≡ bs
unfolding lossy_loop
lossy_loop_ascii zero [] h a = refl
lossy_loop_ascii zero (b ∷ bs) h a = absurd (omega arith)
lossy_loop_ascii (suc fuel) [] h a = refl
lossy_loop_ascii (suc fuel) (b ∷ bs) h (hb, a) =
    ground (arith, lossy_loop_ascii fuel bs (omega arith) a)

pub from_utf8_lossy_ascii : (bs : Bytes) → All (λ b. b < 0x80) bs → from_utf8_lossy bs ≡ bs
unfolding from_utf8_lossy
from_utf8_lossy_ascii bs a = lossy_loop_ascii (length bs) bs (omega arith) a

lossy_example :
    from_utf8_lossy (0x41 ∷ 0xe4 ∷ 0xbd ∷ 0x42 ∷ 0xff ∷ [])
    ≡ 0x41 ∷ replacement (0x42 ∷ replacement [])
unfolding from_utf8_lossy
lossy_example = refl
