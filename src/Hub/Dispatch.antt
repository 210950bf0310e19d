-- ===== src/Hub/Dispatch.antt =====
-- prot_hub.h: the registered upper layers and the handlers. A layer is a number, a message the
-- sequence of its bytes, one that is received the list of its pages.
use decom.Msg.Pages.{Pages, whole, kept}
use decom.Base.{
  ℕ, suc, Bool, true, false, ◌&&◌, ◌||◌, Option, none, some, List, [], ◌∷◌, ◌==◌, leb,
  if◌then◌else◌, snoc,
}
use decom.Layer.{Eid, eid_any, eid_eq, is_any, Effect, to_lower, Status}

-- `upper_layers_type`
pub record UpperLayer : Type 0 where
  pub layer : ℕ
  pub id : Eid
  pub include : Bool

-- What an upper layer is called with.
pub data Call : Type 0 where
  received : (layer : ℕ) → List ℕ → Eid → (more : Bool) → Call
  indicated : (layer : ℕ) → Status → Eid → Call

unfoldable pub upper_registered : List UpperLayer → (upper : ℕ) → List UpperLayer
upper_registered layers upper = snoc layers (record { layer = upper; id = eid_any; include = true })

-- `send`, which passes the message on
unfoldable pub send : (lower : Bool) → List ℕ → Eid → (more : Bool) → Bool × List Effect
send lower bytes id more = (lower, to_lower bytes id more ∷ [])

-- The test of an upper layer against an identifier.
unfoldable pub takes : UpperLayer → Eid → Bool
takes u id = (eid_eq u.id id || is_any u.id) && u.include

-- The loop that counts up to two matching layers, with the last one seen.
unfoldable pub count_from : List UpperLayer → Eid → Option UpperLayer → ℕ → Option UpperLayer × ℕ
count_from [] id last cnt = (last, cnt)
count_from (u ∷ layers) id last cnt =
    let next = count_from layers id last cnt in
    let found = count_from layers id (some u) (suc cnt) in
    if takes u id then if leb 2 (suc cnt) then (some u, suc cnt) else found else next

-- The loop that gives every matching layer the message. `change` is what a layer leaves of a message
-- that it is given, `first` tells that the loop is at the first layer of all.
unfoldable pub distribute :
    (change : ℕ → List ℕ → List ℕ) (first : Bool)
    → List UpperLayer
    → (bytes org : List ℕ) → Eid
    → (more : Bool) → List Call
distribute change first [] bytes org id more = []
distribute change first (u ∷ layers) bytes org id more =
    let given = if first then bytes else org in
    let left = if takes u id then change u.layer given else bytes in
    let rest = distribute change false layers left org id more in
    if takes u id then received u.layer given id more ∷ rest else rest

-- `receive`, which makes a deep copy for two or more layers: no result where the code uses an iterator
-- that was never set.
unfoldable pub receive :
    (change : ℕ → List ℕ → List ℕ)
    → List UpperLayer
    → Pages
    → Eid
    → (more : Bool) → Option (List Call)
receive change layers data_ id more =
    let (it, cnt) = count_from layers id none 0 in
    if leb 2 cnt
    then some (distribute change true layers (whole data_) (kept data_) id more)
    else elim it [ none ↦ none | some u ↦ some (received u.layer (whole data_) id more ∷ []) ]

unfoldable pub indication : List UpperLayer → Status → Eid → List Call
indication [] code id = []
indication (u ∷ layers) code id =
    let rest = indication layers code id in
    if takes u id then indicated u.layer code id ∷ rest else rest

-- `set_channel`, its loop and the entry that it adds behind it
unfoldable pub replace_any :
    List UpperLayer → (upper : ℕ) → Eid → (include : Bool) → Option (List UpperLayer)
replace_any [] upper id include = none
replace_any (u ∷ layers) upper id include =
    let rest = replace_any layers upper id include in
    if u.layer == upper && (is_any u.id && include)
    then some (record u { id = id; include = include } ∷ layers)
    else elim rest [ none ↦ none | some layers' ↦ some (u ∷ layers') ]

unfoldable pub set_channel :
    List UpperLayer → (upper : ℕ) → Eid → (include : Bool) → List UpperLayer × Bool
set_channel layers upper id include = elim (replace_any layers upper id include) [
  | none ↦ (snoc layers (record { layer = upper; id = id; include = include }), false)
  | some layers' ↦ (layers', true)
]
