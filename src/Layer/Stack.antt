-- ===== src/Layer/Stack.antt =====
-- layer.h: the pointers between the layers of a stack, which the constructors and the destructor keep
-- at runtime, and the way that a message takes through layers that pass it on.
use decom.Base.{
  ℕ, zero, suc, ◌==◌, Bool, true, false, not, ◌&&◌, ◌||◌, Option, none, some, List, [], ◌∷◌, update,
  erase, if◌then◌else◌,
}

-- The members `lower_` and `upper_` of the layers. A layer is a number.
pub record Stack : Type 0 where
  pub lower_ : ℕ → Option ℕ
  pub upper_ : ℕ → Option ℕ

-- The constructor of a communicator.
unfoldable pub construct_communicator : Stack → (this : ℕ) → Stack
construct_communicator s this = record {
  lower_ = update s.lower_ this none;
  upper_ = update s.upper_ this none;
}

-- `if (p) { p->member = value; }`
abbrev pub relink : (ℕ → Option ℕ) → (p value : Option ℕ) → ℕ → Option ℕ
relink member none value = member
relink member (some layer) value = update member layer value

-- The constructor of every other layer.
unfoldable pub construct : Stack → (this lower : ℕ) → Stack
construct s this lower =
    let upper = s.upper_ lower in
    record {
      lower_ = relink (update s.lower_ this (some lower)) upper (some this);
      upper_ = update (update s.upper_ this upper) lower (some this);
    }

unfoldable pub destruct : Stack → (this : ℕ) → Stack
destruct s this =
    let upper = relink s.upper_ (s.lower_ this) (s.upper_ this) in
    record { lower_ = relink s.lower_ (upper this) (s.lower_ this); upper_ = upper }

-- The layers that `receive` of the base class passes a message through, from `layer` on, with a bound
-- on their number; `indication` takes the same way.
unfoldable pub receive_path : ℕ → Stack → (layer : Option ℕ) → List ℕ
receive_path zero s layer = []
receive_path (suc fuel) s none = []
receive_path (suc fuel) s (some layer) = layer ∷ receive_path fuel s (s.upper_ layer)

-- The layers that `send` of the base class passes a message through, down to the layer without a lower
-- one; `open` and `close` take the same way.
unfoldable pub send_path : ℕ → Stack → (layer : Option ℕ) → List ℕ
send_path zero s layer = []
send_path (suc fuel) s none = []
send_path (suc fuel) s (some layer) = layer ∷ send_path fuel s (s.lower_ layer)

-- What happens to a stack that stands: a layer is built on one of its layers, or is destroyed.
pub data Change : Type 0 where
  build : (this lower : ℕ) → Change
  destroy : (this : ℕ) → Change

abbrev pub change : Stack → Change → Stack
change s (build this lower) = construct s this lower
change s (destroy this) = destruct s this

abbrev pub run : Stack → List Change → Stack
run s [] = s
run s (c ∷ changes) = run (change s c) changes

-- The stack as the list of its layers, from the lowest one.
abbrev pub insert_above : (this lower : ℕ) → List ℕ → List ℕ
insert_above this lower [] = []
insert_above this lower (x ∷ xs) =
    if x == lower then x ∷ this ∷ xs else x ∷ insert_above this lower xs

abbrev pub shape : List ℕ → List Change → List ℕ
shape xs [] = xs
shape xs (build this lower ∷ changes) = shape (insert_above this lower xs) changes
shape xs (destroy this ∷ changes) = shape (erase this xs) changes

abbrev pub member : ℕ → List ℕ → Bool
member a [] = false
member a (x ∷ xs) = x == a || member a xs

-- A new layer is not in the stack, its lower layer and a destroyed layer are.
abbrev pub is_allowed : List ℕ → List Change → Bool
is_allowed xs [] = true
is_allowed xs (build this lower ∷ changes) =
    member lower xs && (not (member this xs) && is_allowed (insert_above this lower xs) changes)
is_allowed xs (destroy this ∷ changes) = member this xs && is_allowed (erase this xs) changes

abbrev pub first : List ℕ → Option ℕ
first [] = none
first (x ∷ xs) = some x

abbrev pub last_of : Option ℕ → List ℕ → Option ℕ
last_of layer [] = layer
last_of layer (x ∷ xs) = last_of (some x) xs

abbrev pub reverse_onto : List ℕ → List ℕ → List ℕ
reverse_onto [] acc = acc
reverse_onto (x ∷ xs) acc = reverse_onto xs (x ∷ acc)
