-- ===== src/Util/UniqueFd.antt =====
-- util/fd.h: the objects that own file descriptors. Each object is a slot, `none` for a negative
-- descriptor, and the state is that of all of them. A destroyed object stays as an empty slot.
pub mod Owned
mod Tests
use k_watch.Prelude.{
  ℕ, Option, none, some, List, [], ◌∷◌, ◌++◌, Bool, ◌==◌, if◌then◌else◌, get_elem?, set,
}

-- `taken` are the descriptors that were given to an object, `closed` those that an object has closed,
-- and `given` those that `release` has returned.
pub record Descriptors : Type 0 where
  pub slots : List (Option ℕ)
  pub taken : List ℕ
  pub closed : List ℕ
  pub given : List ℕ

abbrev pub open_fd : Option ℕ → List ℕ
open_fd none = []
open_fd (some fd) = fd ∷ []

unfoldable pub construct : Option ℕ → Descriptors → Descriptors
construct f d = record d { slots = d.slots ++ (f ∷ []); taken = d.taken ++ open_fd f }

-- the slot of an object is set, and what it held goes to the descriptors closed
abbrev pub replace : ℕ → Option ℕ → Option (Option ℕ) → Descriptors → Descriptors
replace i f none d = d
replace i f (some held) d = record d { slots = set d.slots i f; closed = d.closed ++ open_fd held }

abbrev pub take_fd : Option (Option ℕ) → Option ℕ → Descriptors → Descriptors
take_fd none f d = d
take_fd (some held) f d = record d { taken = d.taken ++ open_fd f }

unfoldable pub reset : ℕ → Option ℕ → Descriptors → Descriptors
reset i f d = replace i f (get_elem? d.slots i) (take_fd (get_elem? d.slots i) f d)

-- the destructor
unfoldable pub destroy : ℕ → Descriptors → Descriptors
destroy i d = replace i none (get_elem? d.slots i) d

abbrev pub give : ℕ → Option (Option ℕ) → Descriptors → Descriptors
give i none d = d
give i (some held) d = record d { slots = set d.slots i none; given = d.given ++ open_fd held }

unfoldable pub release : ℕ → Descriptors → Descriptors
release i d = give i (get_elem? d.slots i) d

abbrev pub move_out : ℕ → Option (Option ℕ) → Descriptors → Descriptors
move_out j none d = d
move_out j (some held) d = record d { slots = set d.slots j none ++ (held ∷ []) }

-- the move constructor: a new object from the object `j`
unfoldable pub move_construct : ℕ → Descriptors → Descriptors
move_construct j d = move_out j (get_elem? d.slots j) d

-- The two objects are not the same: `other` is emptied, and the first takes what it held.
abbrev pub move_in : ℕ → ℕ → Option (Option ℕ) → Option (Option ℕ) → Descriptors → Descriptors
move_in i j none other d = d
move_in i j (some held) none d = d
move_in i j (some held) (some fd) d = record d {
  slots = set (set d.slots j none) i fd;
  closed = d.closed ++ open_fd held;
}

unfoldable pub move_assign : ℕ → ℕ → Descriptors → Descriptors
move_assign i j d = if i == j then d else move_in i j (get_elem? d.slots i) (get_elem? d.slots j) d

pub data Op : Type 0 where
  constructs : Option ℕ → Op
  resets : ℕ → Option ℕ → Op
  destroys releases moves : ℕ → Op
  assigns : ℕ → ℕ → Op

unfoldable pub apply : Descriptors → Op → Descriptors
unfolding construct reset destroy release move_construct move_assign
apply d (constructs f) = construct f d
apply d (resets i f) = reset i f d
apply d (destroys i) = destroy i d
apply d (releases i) = release i d
apply d (moves j) = move_construct j d
apply d (assigns i j) = move_assign i j d

unfoldable pub run : List Op → Descriptors → Descriptors
unfolding apply
run [] d = d
run (op ∷ ops) d = run ops (apply d op)
