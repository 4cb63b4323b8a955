-- ===== src/Shared/PlayerId.antt =====
-- `player_id_for` of src/distributed_smb/shared/config.py: the text "player" and a decimal number.
use Prim.Native.Char.{Char, code}
use Prim.Native.String.{[], ◌∷◌}
use text.Mathlib.TextEquality.{eq_iff}
use mas_dsmb.Prelude.{
  ◌≡◌, ◌+◌, ◌-◌, ◌*◌, ◌/◌, ◌%◌, ◌<◌, ◌∙◌, ◌==◌, if◌then◌else◌, ℕ, zero, suc, String, refl, ap, inl,
  inr, false, arith, ltb, Bool-cases, ltb→lt, ltb→le, nat_Eq, text_Eq,
}

digit : ℕ → Char
digit zero = "0"
digit (suc zero) = "1"
digit (suc (suc zero)) = "2"
digit (suc (suc (suc zero))) = "3"
digit (suc (suc (suc (suc zero)))) = "4"
digit (suc (suc (suc (suc (suc zero))))) = "5"
digit (suc (suc (suc (suc (suc (suc zero)))))) = "6"
digit (suc (suc (suc (suc (suc (suc (suc zero))))))) = "7"
digit (suc (suc (suc (suc (suc (suc (suc (suc zero)))))))) = "8"
digit _ = "9"

-- The digits of `n` in front of a text, with one unit of fuel for each digit.
digits : ℕ → ℕ → String → String
digits zero n rest = rest
digits (suc fuel) n rest =
    let front = digit (n % 10) ∷ rest in
    let more = digits fuel (n / 10) front in if ltb n 10 then front else more

-- `str(n)`
unfoldable pub decimal : ℕ → String
unfolding digits digit
decimal n = digits (suc n) n ""

-- `int(text)` of a text of decimal digits, with what is read so far.
unfoldable pub read_from : ℕ → String → ℕ
read_from value [] = value
read_from value (c ∷ rest) = read_from (value * 10 + (code c - 48)) rest

unfoldable pub player_id_for : ℕ → String
player_id_for join_index = "p" ∷ ("l" ∷ ("a" ∷ ("y" ∷ ("e" ∷ ("r" ∷ decimal (join_index + 1))))))

code-digit : (n : ℕ) → n < 10 → code (digit n) - 48 ≡ n
unfolding digit
code-digit zero h = refl
code-digit (suc zero) h = refl
code-digit (suc (suc zero)) h = refl
code-digit (suc (suc (suc zero))) h = refl
code-digit (suc (suc (suc (suc zero)))) h = refl
code-digit (suc (suc (suc (suc (suc zero))))) h = refl
code-digit (suc (suc (suc (suc (suc (suc zero)))))) h = refl
code-digit (suc (suc (suc (suc (suc (suc (suc zero))))))) h = refl
code-digit (suc (suc (suc (suc (suc (suc (suc (suc zero)))))))) h = refl
code-digit (suc (suc (suc (suc (suc (suc (suc (suc (suc zero))))))))) h = refl
code-digit (suc (suc (suc (suc (suc (suc (suc (suc (suc (suc n)))))))))) h = absurd (omega arith)

read_from-digits :
    (fuel n : ℕ) (rest : String) → n < fuel → read_from 0 (digits fuel n rest) ≡ read_from n rest
unfolding digits read_from
read_from-digits zero n rest h = elim h [ ]
read_from-digits (suc fuel) n rest h = elim (Bool-cases (ltb n 10)) [
  | inl last ↦ rw last (
      ap (λ v. read_from v rest)
        (omega (arith, code-digit (n % 10) (omega arith), ltb→lt n 10 last)))
  | inr more ↦ rw more (
      read_from-digits fuel (n / 10) (digit (n % 10) ∷ rest) (omega (arith, ltb→le n 10 more))
      ∙ ap (λ v. read_from v rest) (omega (arith, code-digit (n % 10) (omega arith))))
]

-- Reading a printed number gives the number back.
pub read_from-decimal : (n : ℕ) → read_from 0 (decimal n) ≡ n
unfolding decimal read_from
read_from-decimal n = read_from-digits (suc n) n "" (omega arith)

tail : String → String
tail [] = []
tail (_ ∷ rest) = rest

-- The number behind the six letters of "player".
number_of : String → ℕ
unfolding tail
number_of id = read_from 0 (tail (tail (tail (tail (tail (tail id))))))

number_of-player_id_for : (i : ℕ) → number_of (player_id_for i) ≡ i + 1
unfolding number_of player_id_for
number_of-player_id_for i = read_from-decimal (i + 1)

-- The id names the join index: two join indices never share a player id.
pub player_id_for-injective : (i j : ℕ) → player_id_for i ≡ player_id_for j → i ≡ j
player_id_for-injective i j same =
    omega (arith, number_of-player_id_for i, number_of-player_id_for j, ap number_of same)

number_of-empty : number_of "" ≡ 0
unfolding number_of tail read_from
number_of-empty = refl

pub player_id_for-ne-empty : (i : ℕ) → (player_id_for i == "") ≡ false
player_id_for-ne-empty i = elim (Bool-cases (player_id_for i == "")) [
  | inl same ↦ absurd (
      omega (
        arith,
        number_of-player_id_for i,
        number_of-empty,
        ap number_of ((eq_iff (player_id_for i) "").0 same),
      ))
  | inr differ ↦ differ
]
