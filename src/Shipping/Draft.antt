-- ===== src/Shipping/Draft.antt =====
-- The drafts that zdrovena/common/shipping_store.py keeps: JSON objects, here dicts of the values that
-- the modelled code reads or writes.
use Prim.Native.String.{◌++◌ as str_append}
use zdrovena_reconciliation.Prelude.{
  ℕ, zero, suc, ltb, ◌/◌, ◌%◌, String, Bool, true, false, not, Option, none, some, List, [], ◌∷◌,
  ◌==◌, str_eq, if◌then◌else◌,
}
use zdrovena_reconciliation.Prelude.Dict.{Dict, lookup}
use zdrovena_reconciliation.Shipping.State.{
  Status, pending, needs_review, pending_confirmation, executing, created, error, cancelled,
  unlisted,
}

-- One parcel's record as the providers hand it over.
pub record Shipment : Type 0 where
  pub shipment_id : Option String
  pub tracking_number : Option String
  pub package_type : Option String
  pub package_number : Option String

-- What a draft's keys hold, as far as the modelled code reads or writes them.
pub data Value : Type 0 where
  null : Value
  flag : Bool → Value
  number : ℕ → Value
  text : String → Value
  shipments : List Shipment → Value
  -- the rows of the stored plan, by their `int(row.get("qty") or 0)`
  rows : List ℕ → Value
  -- the receiver, by the phone
  receiver : Option String → Value
  -- a list or an object that is only copied: whether it has entries, and its text
  json : Bool → String → Value

abbrev pub Draft : Type 0
Draft = Dict Value

-- `bool(value)` of what `get` returned
abbrev pub truthy : Option Value → Bool
truthy none = false
truthy (some null) = false
truthy (some (flag b)) = b
truthy (some (number n)) = not (n == 0)
truthy (some (text s)) = not (str_eq s "")
truthy (some (shipments [])) = false
truthy (some (shipments (x ∷ xs))) = true
truthy (some (rows [])) = false
truthy (some (rows (n ∷ ns))) = true
truthy (some (receiver phone)) = true
truthy (some (json filled s)) = filled

-- `==` on the values of the keys that identify an order, which hold no lists
abbrev pub same_value : Option Value → Option Value → Bool
same_value (some (text s)) (some (text t)) = str_eq s t
same_value (some (number m)) (some (number n)) = m == n
same_value (some (flag a)) (some (flag b)) = if a then b else not b
same_value (some null) (some null) = true
same_value (some null) none = true
same_value none (some null) = true
same_value none none = true
same_value _ _ = false

unfoldable pub read_status : String → Status
read_status s =
    if str_eq s "pending"
    then pending
    else if str_eq s "needs_review"
    then needs_review
    else if str_eq s "pending_confirmation"
    then pending_confirmation
    else if str_eq s "executing"
    then executing
    else if str_eq s "created"
    then created
    else if str_eq s "error"
    then error
    else if str_eq s "cancelled"
    then cancelled
    else unlisted s

-- a value that is no text is no listed status
abbrev pub status_of_value : Option Value → Option Status
status_of_value none = none
status_of_value (some null) = none
status_of_value (some (text s)) = some (read_status s)
status_of_value (some _) = some (unlisted "")

-- `record.get("status")`
unfoldable pub status_of : Draft → Option Status
unfolding read_status
status_of draft = status_of_value (lookup "status" draft)

-- the text under a key; a key that is missing, or holds no text, reads as empty
abbrev pub text_at : String → Draft → String
text_at key draft = elim (lookup key draft) [ some (text s) ↦ s | _ ↦ "" ]

abbrev digit_text : ℕ → String
digit_text n =
    if n == 0
    then "0"
    else if n == 1
    then "1"
    else if n == 2
    then "2"
    else if n == 3
    then "3"
    else if n == 4
    then "4"
    else if n == 5
    then "5"
    else if n == 6
    then "6"
    else if n == 7
    then "7"
    else if n == 8
    then "8"
    else "9"

-- the decimal digits of a number; as much fuel as the number itself is enough
abbrev decimal_text : ℕ → ℕ → String
decimal_text zero n = digit_text n
decimal_text (suc fuel) n = elim (ltb n 10) [
  | true ↦ digit_text n
  | false ↦ str_append (decimal_text fuel (n / 10)) (digit_text (n % 10))
]

-- `str(value)`; of the parcels' and the receiver's values, which no compared key holds, it is empty
abbrev pub str_value : Value → String
str_value null = "None"
str_value (flag true) = "True"
str_value (flag false) = "False"
str_value (number n) = decimal_text n n
str_value (text s) = s
str_value (json filled s) = s
str_value (shipments xs) = ""
str_value (rows ns) = ""
str_value (receiver phone) = ""

-- `str(record.get(key, ""))`
abbrev pub str_at : String → Draft → String
str_at key draft = elim (lookup key draft) [ none ↦ "" | some v ↦ str_value v ]
