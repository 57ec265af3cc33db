-- ===== src/Node/Balances.antt =====
-- bridge/src/kaspa/kaspaapi/api/template_submit.rs: `get_balances_by_addresses`. `try_from` is the
-- parser of addresses, and the node is given by what it answers. The sum of a u64 wraps, as in a
-- release build.
use rusty_kaspa_stratum.Shared.{
  ℕ, ◌+◌, ◌%◌, ◌^◌, ◌≡◌, refl, Bool, true, false, ◌||◌, Option, none, some, List, [], ◌∷◌, ◌++◌,
  Text, codes, if◌then◌else◌, Result, ok, err, HashMap, get, insert, text_key, unwrap_or,
  get-insert, arith, text_eq, text_eq_iff, ap, ◌∙◌, get-empty,
}

pub record UtxoEntry : Type 0 where
  pub address : Option Text
  pub amount : ℕ

-- What is paid to an address in this entry.
abbrev credit : Option Text → ℕ → HashMap Text ℕ → HashMap Text ℕ
credit none amount balance_map = balance_map
credit (some address) amount balance_map =
    insert address ((unwrap_or (get address balance_map) 0 + amount) % 2 ^ 64) balance_map

unfoldable pub add_entries : HashMap Text ℕ → List UtxoEntry → HashMap Text ℕ
add_entries balance_map [] = balance_map
add_entries balance_map (entry ∷ entries) =
    add_entries (credit entry.address entry.amount balance_map) entries

abbrev pub after_parse :
    Result Text (List Text) → Result Text (List UtxoEntry) → Result Text (HashMap Text ℕ)
after_parse (err e) answer = err (codes "Failed to parse addresses: " ++ e)
after_parse (ok addresses) (err e) = err (codes "Failed to get UTXOs by addresses")
after_parse (ok addresses) (ok entries) = ok (add_entries [] entries)

module _ (try_from : Text → Result Text Text) where
  abbrev pub cons_parsed : Result Text Text → Result Text (List Text) → Result Text (List Text)
  cons_parsed (err e) rest = err e
  cons_parsed (ok a) (err e) = err e
  cons_parsed (ok a) (ok rest) = ok (a ∷ rest)

  -- `collect` into a `Result`
  unfoldable pub parse_addresses : List Text → Result Text (List Text)
  parse_addresses [] = ok []
  parse_addresses (addr ∷ addresses) = cons_parsed (try_from addr) (parse_addresses addresses)

  unfoldable pub get_balances_by_addresses :
      (List Text → Result Text (List UtxoEntry)) → List Text → Result Text (HashMap Text ℕ)
  unfolding parse_addresses add_entries
  get_balances_by_addresses get_utxos addresses =
      let parsed = parse_addresses addresses in
      after_parse parsed (elim parsed [ ok a ↦ get_utxos a | err e ↦ ok [] ])

-- What an address holds by the entries.
abbrev is_at : Text → Option Text → Bool
is_at a none = false
is_at a (some b) = text_eq b a

unfoldable pub held : Text → List UtxoEntry → ℕ
held a [] = 0
held a (entry ∷ entries) =
    let rest = held a entries in if is_at a entry.address then entry.amount + rest else rest

unfoldable pub occurs : Text → List UtxoEntry → Bool
occurs a [] = false
occurs a (entry ∷ entries) = is_at a entry.address || occurs a entries

get-credit :
    (a : Text) (address : Option Text) (amount : ℕ) (m : HashMap Text ℕ)
    → get a (credit address amount m)
      ≡ (if is_at a address then some ((unwrap_or (get a m) 0 + amount) % 2 ^ 64) else get a m)
get-credit a none amount m = refl
get-credit a (some b) amount m =
    ground (arith, text_eq_iff b a, get-insert b a ((unwrap_or (get b m) 0 + amount) % 2 ^ 64) m)

-- The sum goes on from what is there.
abbrev sum_from : Option ℕ → Bool → ℕ → Option ℕ
sum_from none false total = none
sum_from none true total = some (total % 2 ^ 64)
sum_from (some v) seen total = if seen then some ((v + total) % 2 ^ 64) else some v

sum_from-if :
    (old : Option ℕ) (here seen : Bool) (amount rest : ℕ)
    → (seen ≡ false → rest ≡ 0)
    → sum_from (if here then some ((unwrap_or old 0 + amount) % 2 ^ 64) else old) seen rest
      ≡ sum_from old (here || seen) (if here then amount + rest else rest)
sum_from-if none true true amount rest h = ap some (omega arith)
sum_from-if none true false amount rest h = ap some (omega (arith, h refl))
sum_from-if none false seen amount rest h = refl
sum_from-if (some v) true true amount rest h = ap some (omega arith)
sum_from-if (some v) true false amount rest h = ap some (omega (arith, h refl))
sum_from-if (some v) false seen amount rest h = refl

held_absent : (a : Text) (entries : List UtxoEntry) → occurs a entries ≡ false → held a entries ≡ 0
unfolding held occurs
held_absent a [] h = refl
held_absent a (entry ∷ entries) h = ground (arith, h, held_absent a entries)

get-add_entries :
    (a : Text) (m : HashMap Text ℕ) (entries : List UtxoEntry)
    → get a (add_entries m entries) ≡ sum_from (get a m) (occurs a entries) (held a entries)
unfolding add_entries held occurs
get-add_entries a m [] = ground arith
get-add_entries a m (entry ∷ entries) =
    get-add_entries a (credit entry.address entry.amount m) entries
    ∙ rw (get-credit a entry.address entry.amount m) (
        sum_from-if (get a m) (is_at a entry.address) (occurs a entries) entry.amount
          (held a entries) (held_absent a entries))

sum_from-none :
    (seen : Bool) (total : ℕ)
    → sum_from none seen total ≡ (if seen then some (total % 2 ^ 64) else none)
sum_from-none true total = refl
sum_from-none false total = refl

-- For addresses that can be parsed, and a node that answers, there are balances: the balance of an
-- address that has an entry is the sum of its entries, modulo 2^64, and an address that has none has
-- no balance.
pub get-get_balances_by_addresses :
    (try_from : Text → Result Text Text) (get_utxos : List Text → Result Text (List UtxoEntry))
    (addresses parsed : List Text) (entries : List UtxoEntry) (a : Text)
    → parse_addresses try_from addresses ≡ ok parsed
    → get_utxos parsed ≡ ok entries
    → (balances : HashMap Text ℕ) × (get_balances_by_addresses try_from get_utxos addresses
        ≡ ok balances)
      × (get a balances ≡ (if occurs a entries then some (held a entries % 2 ^ 64) else none))
unfolding get_balances_by_addresses
get-get_balances_by_addresses try_from get_utxos addresses parsed entries a hp hu = (
  add_entries [] entries,
  rw (hp, hu) refl,
  get-add_entries a [] entries
      ∙ rw (get-empty {V = ℕ} a) (sum_from-none (occurs a entries) (held a entries)),
)
