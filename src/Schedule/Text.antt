-- ===== src/Schedule/Text.antt =====
-- What schedule_trigger.go uses of Go's packages strings and strconv, over lists of code points.
use swf_go.Prelude.{
  ◌<◌, ◌≡◌, arith, ℕ, ◌+◌, ◌-◌, ◌*◌, ◌%◌, Bool, true, false, ◌&&◌, ◌||◌, Option, none, some, List,
  [], ◌∷◌, ltb, leb, ◌==◌, if◌then◌else◌, String,
}
use mathlib.Core.List.{reverse}
use Prim.Native.Char.{code}

abbrev pub runes : String → List ℕ
runes String.[] = []
runes (String.◌∷◌ c s) = code c ∷ runes s

abbrev pub text_eq : List ℕ → List ℕ → Bool
text_eq [] [] = true
text_eq [] (y ∷ ys) = false
text_eq (x ∷ xs) [] = false
text_eq (x ∷ xs) (y ∷ ys) = x == y && text_eq xs ys

-- unicode.IsSpace
abbrev pub is_space : ℕ → Bool
is_space c =
    (leb 9 c && leb c 13)
    || c == 0x20
    || c == 0x85
    || c == 0xa0
    || c == 0x1680
    || (leb 0x2000 c && leb c 0x200a)
    || c == 0x2028
    || c == 0x2029
    || c == 0x202f
    || c == 0x205f
    || c == 0x3000

-- strings.Contains for a text of one rune
unfoldable pub contains : List ℕ → ℕ → Bool
contains [] c = false
contains (x ∷ xs) c = x == c || contains xs c

abbrev push_front : ℕ → List (List ℕ) → List (List ℕ)
push_front c [] = (c ∷ []) ∷ []
push_front c (w ∷ ws) = (c ∷ w) ∷ ws

-- strings.Split for a separator of one rune: never empty
unfoldable pub split : List ℕ → ℕ → List (List ℕ)
split [] sep = [] ∷ []
split (x ∷ xs) sep =
    let rest : List (List ℕ) = split xs sep in if x == sep then [] ∷ rest else push_front x rest

abbrev drop_empty : List (List ℕ) → List (List ℕ)
drop_empty [] = []
drop_empty ([] ∷ ws) = drop_empty ws
drop_empty ((c ∷ w) ∷ ws) = (c ∷ w) ∷ drop_empty ws

split_spaces : List ℕ → List (List ℕ)
split_spaces [] = [] ∷ []
split_spaces (x ∷ xs) =
    let rest : List (List ℕ) = split_spaces xs in
    if is_space x then [] ∷ rest else push_front x rest

-- strings.Fields: the words between runs of white space
unfoldable pub fields : List ℕ → List (List ℕ)
unfolding split_spaces
fields s = drop_empty (split_spaces s)

trim_left : List ℕ → List ℕ
trim_left [] = []
trim_left (x ∷ xs) = let rest : List ℕ = trim_left xs in if is_space x then rest else x ∷ xs

-- strings.TrimSpace
unfoldable pub trim_space : List ℕ → List ℕ
unfolding trim_left
trim_space s = reverse (trim_left (reverse (trim_left s)))

abbrev pub int_mod : ℕ
int_mod = 0x10000000000000000

abbrev pub int_half : ℕ
int_half = 0x8000000000000000

-- Go's int is a 64-bit word in two's complement; `signed_lt` is its `<`.
abbrev pub signed_lt : ℕ → ℕ → Bool
signed_lt a b = ltb ((a + int_half) % int_mod) ((b + int_half) % int_mod)

digits_value : ℕ → List ℕ → Option ℕ
digits_value n [] = some n
digits_value n (c ∷ cs) =
    let rest : Option ℕ = digits_value (n * 10 + (c - b'0')) cs in
    if leb b'0' c && leb c b'9' then rest else none

unsigned : List ℕ → Option ℕ
unfolding digits_value
unsigned [] = none
unsigned (c ∷ cs) = digits_value 0 (c ∷ cs)

in_range : ℕ → Option ℕ → Option ℕ
in_range limit none = none
in_range limit (some n) = if ltb n limit then some n else none

negated : Option ℕ → Option ℕ
negated none = none
negated (some n) = if leb n int_half then some ((int_mod - n) % int_mod) else none

-- strconv.Atoi: an optional sign, decimal digits, and a value that fits; `none` is its error.
unfoldable pub atoi : List ℕ → Option ℕ
unfolding unsigned in_range negated
atoi [] = none
atoi (c ∷ cs) =
    if c == b'-'
    then negated (unsigned cs)
    else if c == b'+'
    then in_range int_half (unsigned cs)
    else in_range int_half (unsigned (c ∷ cs))

negated-lt : (o : Option ℕ) {m : ℕ} → negated o ≡ some m → m < int_mod
unfolding negated
negated-lt none h = ground arith
negated-lt (some n) h = ground arith

in_range-lt : (o : Option ℕ) {m : ℕ} → in_range int_half o ≡ some m → m < int_mod
unfolding in_range
in_range-lt none h = ground arith
in_range-lt (some n) h = ground arith

-- Atoi gives a 64-bit word.
pub atoi-lt : (s : List ℕ) {m : ℕ} → atoi s ≡ some m → m < int_mod
unfolding atoi
atoi-lt [] h = ground arith
atoi-lt (c ∷ cs) h =
    ground
      (arith, negated-lt (unsigned cs), in_range-lt (unsigned cs), in_range-lt (unsigned (c ∷ cs)))
