-- ===== src/RemoteControl/Hostname/Normal.antt =====
-- src/plaik_core/remote_control.py: a hostname that was accepted is accepted again, as it is.
use plaik.Prelude.{ℕ, ◌≡◌, refl, ap, ◌∙◌, true, false, List, [], ◌∷◌, arith, inl, inr, Bool-cases}
use plaik.Prelude.Text.{all_codes, ends, lstrip, rstrip-ends}
use plaik.Prelude.Results.{ok}
use plaik.RemoteControl.Hostname.{
  Hostname, whitespace, dot, fold_code, casefold, normalized, hostname_code, labels, is_top_level,
  are_labels, is_dns_name, check_hostname, validate_dns_hostname,
}

hostname_code-plain :
    (c : ℕ) → hostname_code c ≡ true → (whitespace c ≡ false) × (fold_code c ≡ c ∷ [])
hostname_code-plain c h = (ground (arith, h), ground (arith, h))

ends-whitespace : (s : List ℕ) → all_codes hostname_code s ≡ true → ends whitespace s ≡ false
unfolding ends all_codes
ends-whitespace [] h = refl
ends-whitespace (c ∷ []) h = ground (arith, h)
ends-whitespace (c ∷ d ∷ s) h = ends-whitespace (d ∷ s) (ground (arith, h))

lstrip-plain : (s : List ℕ) → all_codes hostname_code s ≡ true → lstrip whitespace s ≡ s
unfolding lstrip all_codes
lstrip-plain [] h = refl
lstrip-plain (c ∷ s) h = rw (hostname_code-plain c (ground (arith, h))).0

casefold-plain : (s : List ℕ) → all_codes hostname_code s ≡ true → casefold s ≡ s
unfolding casefold all_codes
casefold-plain [] h = refl
casefold-plain (c ∷ s) h =
    rw ((hostname_code-plain c (ground (arith, h))).1, casefold-plain s (ground (arith, h)))

-- The last of the labels.
last_label : List (List ℕ) → List ℕ
last_label [] = []
last_label (l ∷ []) = l
last_label (l ∷ m ∷ ls) = last_label (m ∷ ls)

-- Two labels or more, of which the last is empty.
record EndsEmpty (ls : List (List ℕ)) : Type 0 where
  first : List ℕ
  second : List ℕ
  rest : List (List ℕ)
  are : ls ≡ first ∷ second ∷ rest
  empty : last_label (second ∷ rest) ≡ []

labels-dot : (s : List ℕ) → ends dot s ≡ true → EndsEmpty (labels s)
unfolding ends labels last_label
labels-dot [] h = absurd (ground (arith, h))
labels-dot (c ∷ []) h = record {
  first = [];
  second = [];
  rest = [];
  are = ground (arith, h);
  empty = refl;
}
labels-dot (c ∷ d ∷ s) h =
    let i = labels-dot (d ∷ s) h in
    elim (Bool-cases (dot c)) [
      | inl e ↦ record {
        first = [];
        second = i.first;
        rest = i.second ∷ i.rest;
        are = rw (e, i.are);
        empty = i.empty;
      }
      | inr e ↦ record {
        first = c ∷ i.first;
        second = i.second;
        rest = i.rest;
        are = rw (e, i.are);
        empty = i.empty;
      }
    ]

are_labels-top : (ls : List (List ℕ)) → are_labels ls ≡ true → is_top_level (last_label ls) ≡ true
unfolding are_labels last_label
are_labels-top [] h = absurd (ground (arith, h))
are_labels-top (l ∷ []) h = absurd (ground (arith, h))
are_labels-top (l ∷ m ∷ []) h = ground (arith, h)
are_labels-top (l ∷ m ∷ n ∷ ls) h = are_labels-top (m ∷ n ∷ ls) (ground (arith, h))

is_dns_name-ends : (s : List ℕ) → is_dns_name s ≡ true → ends dot s ≡ false
unfolding is_dns_name is_top_level last_label
is_dns_name-ends s h = elim (Bool-cases (ends dot s)) [
  | inr e ↦ e
  | inl e ↦
      let i = labels-dot s e in
      let t = are_labels-top (labels s) (ground (arith, h)) in
      absurd (ground (arith, ap last_label i.are ∙ i.empty, t))
]

check_hostname-normalized : (h : Hostname) → check_hostname h ≡ ok tt → normalized h ≡ h
unfolding normalized check_hostname
check_hostname-normalized h e =
    let safe : all_codes hostname_code h ≡ true = ground (arith, e) in
    let named : is_dns_name h ≡ true = ground (arith, e) in
    rw (
      lstrip-plain h safe,
      rstrip-ends whitespace h (ends-whitespace h safe),
      rstrip-ends dot h (is_dns_name-ends h named),
      casefold-plain h safe,
    )

-- A hostname that `validate_dns_hostname` returns is returned as it is by `validate_dns_hostname`.
pub validate_dns_hostname_idem :
    (value : List ℕ) (h : Hostname)
    → validate_dns_hostname value ≡ ok h
    → validate_dns_hostname h ≡ ok h
unfolding validate_dns_hostname
validate_dns_hostname_idem value h e =
    let same : normalized value ≡ h = ground (arith, e) in
    let checked : check_hostname (normalized value) ≡ ok tt = ground (arith, e) in
    let again : check_hostname h ≡ ok tt = rw same at checked in
    rw (check_hostname-normalized h again, again)
