-- ===== src/RemoteControl/Hostname.antt =====
-- src/plaik_core/remote_control.py, `validate_dns_hostname`. A text is the list of its code points.
pub mod Normal
use plaik.Prelude.{
  ℕ, ◌+◌, ◌≡◌, refl, Bool, true, false, ◌&&◌, ◌||◌, not, List, [], ◌∷◌, ◌++◌, arith, leb, nat_beq,
  ◌==◌, Eq, if◌then◌else◌, length,
}
use plaik.Prelude.Text.{codes, lower, upper, digit, all_codes, ends, lstrip, rstrip, codes_eq}
use plaik.Prelude.Results.{Result, ok, err, guard, ◌>>◌}

pub data InvalidRemoteHostname : Type 0 where
  is_required forbidden_characters loopback_name ip_address local_name not_dns :
      InvalidRemoteHostname

abbrev pub Hostname : Type 0
Hostname = List ℕ

-- What `str.strip` removes.
abbrev pub whitespace : ℕ → Bool
whitespace c =
    (leb 9 c && leb c 13)
    || (leb 28 c && leb c 32)
    || nat_beq c 133
    || nat_beq c 160
    || nat_beq c 5760
    || (leb 8192 c && leb c 8202)
    || nat_beq c 8232
    || nat_beq c 8233
    || nat_beq c 8239
    || nat_beq c 8287
    || nat_beq c 12288

abbrev pub dot : ℕ → Bool
dot c = nat_beq c b'.'

-- `str.casefold` of one character, where the result is ASCII: the capitals, the Kelvin sign, long
-- and sharp s, and the ligatures of f and s. Any other character stays outside ASCII.
abbrev pub fold_code : ℕ → List ℕ
fold_code c =
    if upper c
    then (c + 32) ∷ []
    else if nat_beq c 8490
    then b'k' ∷ []
    else if nat_beq c 383
    then b's' ∷ []
    else if nat_beq c 223
    then b's' ∷ b's' ∷ []
    else if nat_beq c 7838
    then b's' ∷ b's' ∷ []
    else if nat_beq c 64256
    then b'f' ∷ b'f' ∷ []
    else if nat_beq c 64257
    then b'f' ∷ b'i' ∷ []
    else if nat_beq c 64258
    then b'f' ∷ b'l' ∷ []
    else if nat_beq c 64259
    then b'f' ∷ b'f' ∷ b'i' ∷ []
    else if nat_beq c 64260
    then b'f' ∷ b'f' ∷ b'l' ∷ []
    else if nat_beq c 64261
    then b's' ∷ b't' ∷ []
    else if nat_beq c 64262
    then b's' ∷ b't' ∷ []
    else c ∷ []

unfoldable pub casefold : List ℕ → List ℕ
casefold [] = []
casefold (c ∷ s) = fold_code c ++ casefold s

-- `value.strip().rstrip(".").casefold()`
unfoldable pub normalized : List ℕ → Hostname
unfolding casefold
normalized value = casefold (rstrip dot (rstrip whitespace (lstrip whitespace value)))

-- `[a-z0-9.-]`: what `_INJECTION` lets through.
abbrev pub hostname_code : ℕ → Bool
hostname_code c = lower c || digit c || nat_beq c b'.' || nat_beq c b'-'

abbrev pub cons_head : ℕ → List (List ℕ) → List (List ℕ)
cons_head c [] = (c ∷ []) ∷ []
cons_head c (l ∷ ls) = (c ∷ l) ∷ ls

-- The labels between the dots.
unfoldable pub labels : List ℕ → List (List ℕ)
labels [] = [] ∷ []
labels (c ∷ s) = let rest = labels s in if dot c then [] ∷ rest else cons_head c rest

-- `[a-z0-9]`
abbrev pub edge : ℕ → Bool
edge c = lower c || digit c

-- `[a-z0-9](?:[a-z0-9-]{0,61}[a-z0-9])?`
unfoldable pub is_label : List ℕ → Bool
is_label [] = false
is_label (c ∷ s) =
    edge c
    && all_codes (λ d. edge d || nat_beq d b'-') s
    && not (ends (λ d. nat_beq d b'-') s)
    && leb (length s) 62

-- `[a-z]{2,63}`
unfoldable pub is_top_level : List ℕ → Bool
is_top_level s = all_codes lower s && leb 2 (length s) && leb (length s) 63

-- One label or more, then the top level.
unfoldable pub are_labels : List (List ℕ) → Bool
unfolding is_label is_top_level
are_labels [] = false
are_labels (l ∷ []) = false
are_labels (l ∷ m ∷ []) = is_label l && is_top_level m
are_labels (l ∷ m ∷ n ∷ ls) = is_label l && are_labels (m ∷ n ∷ ls)

-- `_HOSTNAME.fullmatch`
unfoldable pub is_dns_name : List ℕ → Bool
unfolding are_labels labels
is_dns_name s = leb 1 (length s) && leb (length s) 253 && are_labels (labels s)

-- A number of an IPv4 address: at most 255, and no leading zero.
unfoldable pub octet : List ℕ → Bool
octet (a ∷ []) = digit a
octet (a ∷ b ∷ []) = digit a && digit b && not (nat_beq a b'0')
octet (a ∷ b ∷ c ∷ []) =
    (nat_beq a b'1' && digit b && digit c)
    || (nat_beq a b'2' && leb b'0' b && leb b b'4' && digit c)
    || (nat_beq a b'2' && nat_beq b b'5' && leb b'0' c && leb c b'5')
octet _ = false

-- `ipaddress.ip_address` accepts: of such characters, an address of version 4 alone.
unfoldable pub is_ip_address : List (List ℕ) → Bool
unfolding octet
is_ip_address (a ∷ b ∷ c ∷ d ∷ []) = octet a && octet b && octet c && octet d
is_ip_address _ = false

-- `s.endswith(suffix)`
unfoldable pub ends_with : List ℕ → List ℕ → Bool
ends_with suffix [] = [] == suffix
ends_with suffix (c ∷ s) = (c ∷ s) == suffix || ends_with suffix s

-- The checks of the candidate.
unfoldable pub check_hostname : Hostname → Result InvalidRemoteHostname (Unit {0})
unfolding is_ip_address labels ends_with is_dns_name
check_hostname candidate = do
  guard (not (candidate == [])) is_required
  guard (all_codes hostname_code candidate) forbidden_characters
  guard (not (candidate == codes "localhost" || candidate == codes "localhost.localdomain"))
      loopback_name
  guard (not (is_ip_address (labels candidate))) ip_address
  guard (not (ends_with (codes ".localhost") candidate || ends_with (codes ".local") candidate))
      local_name
  guard (is_dns_name candidate) not_dns

unfoldable pub validate_dns_hostname : List ℕ → Result InvalidRemoteHostname Hostname
unfolding normalized check_hostname
validate_dns_hostname value = do check_hostname (normalized value); ok (normalized value)
