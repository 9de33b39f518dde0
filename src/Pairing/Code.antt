-- ===== src/Pairing/Code.antt =====
-- src/plaik_core/pairing.py: the pairing code, as it is drawn, shown and read back. A text is the
-- list of its code points.
use plaik.Prelude.{
  ℕ, ◌-◌, Bool, ◌&&◌, ◌||◌, List, [], ◌∷◌, ◌++◌, nat_beq, if◌then◌else◌, length, take, drop, keep,
}
use plaik.Prelude.Text.{codes, lower, upper, digit, all_codes, lstrip, rstrip, one_of}
use plaik.Prelude.Results.{Result, ok, guard, ◌>>=◌, ◌>>◌}
use plaik.RemoteControl.Hostname.{whitespace}

pub data PairingError : Type 0 where
  denied rejected issue_unavailable store_unavailable value_error : PairingError

abbrev pairing_alphabet : List ℕ
pairing_alphabet = codes "23456789ABCDEFGHJKMNPQRSTVWXYZ"

-- `[0-9A-Z]`
abbrev pub code_character : ℕ → Bool
code_character c = digit c || upper c

-- `str.upper` of one character, as far as it holds a character of a code: the small letters, dotless i,
-- the letters that are a letter with a mark, long and sharp s, and the ligatures of f and s.
abbrev pub upper_code : ℕ → List ℕ
upper_code c =
    if lower c
    then (c - 32) ∷ []
    else if nat_beq c 223
    then b'S' ∷ b'S' ∷ []
    else if nat_beq c 305
    then b'I' ∷ []
    else if nat_beq c 329
    then b'N' ∷ []
    else if nat_beq c 383
    then b'S' ∷ []
    else if nat_beq c 496
    then b'J' ∷ []
    else if nat_beq c 7830
    then b'H' ∷ []
    else if nat_beq c 7831
    then b'T' ∷ []
    else if nat_beq c 7832
    then b'W' ∷ []
    else if nat_beq c 7833
    then b'Y' ∷ []
    else if nat_beq c 7834
    then b'A' ∷ []
    else if nat_beq c 64256
    then b'F' ∷ b'F' ∷ []
    else if nat_beq c 64257
    then b'F' ∷ b'I' ∷ []
    else if nat_beq c 64258
    then b'F' ∷ b'L' ∷ []
    else if nat_beq c 64259
    then b'F' ∷ b'F' ∷ b'I' ∷ []
    else if nat_beq c 64260
    then b'F' ∷ b'F' ∷ b'L' ∷ []
    else if nat_beq c 64261
    then b'S' ∷ b'T' ∷ []
    else if nat_beq c 64262
    then b'S' ∷ b'T' ∷ []
    else c ∷ []

unfoldable pub uppercase : List ℕ → List ℕ
uppercase [] = []
uppercase (c ∷ s) = upper_code c ++ uppercase s

-- `_NON_CODE.sub("", value.strip().upper())`
unfoldable pub compact : List ℕ → List ℕ
unfolding uppercase
compact value = keep code_character (uppercase (rstrip whitespace (lstrip whitespace value)))

unfoldable pub in_alphabet : ℕ → Bool
unfolding one_of
in_alphabet c = one_of c pairing_alphabet

unfoldable pub normalize_pairing_code : List ℕ → Result PairingError (List ℕ)
unfolding compact in_alphabet
normalize_pairing_code value = do
  guard (nat_beq (length (compact value)) 8 && all_codes in_alphabet (compact value)) rejected
  ok (compact value)

unfoldable pub format_pairing_code : List ℕ → Result PairingError (List ℕ)
unfolding normalize_pairing_code
format_pairing_code raw = do
  normalized ← normalize_pairing_code raw
  ok (take 4 normalized ++ (b'-' ∷ drop 4 normalized))
