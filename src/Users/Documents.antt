-- ===== src/Users/Documents.antt =====
-- The documents of the collection seen as a map from identifiers: what a lookup finds after an
-- update by identifier, while no two documents share one.
use nestjs_jwt.Prelude.{
  ℕ, ◌≡◌, refl, ◌≢◌, Bool, true, false, Option, none, some, List, [], ◌∷◌, ◌++◌, arith, ◌==◌,
  if◌then◌else◌, Bool-cases, inl, inr,
}
use mathlib.Core.Option
use nestjs_jwt.Users.Schema.{User}
use nestjs_jwt.Users.Collection.{first, update_first}
use nestjs_jwt.Users.Updates.{by_id, by_active_id}

-- The document with an identifier, deleted or not.
abbrev pub get : ℕ → List User → Option User
get i [] = none
get i (d ∷ ds) = if d.id == i then some d else get i ds

abbrev pub unless_deleted : Option User → Option User
unless_deleted none = none
unless_deleted (some u) = if u.is_deleted then none else some u

abbrev pub HasDistinctIds : List User → Type 0
HasDistinctIds [] = Unit {0}
HasDistinctIds (d ∷ ds) = (get d.id ds ≡ none) × HasDistinctIds ds

-- An update that leaves the identifier alone.
abbrev pub KeepsId : (User → User) → Type 0
KeepsId f = (d : User) → (f d).id ≡ d.id

-- An update that does not change what a filter says.
abbrev pub Respects : (User → Bool) → (User → User) → Type 0
Respects p f = (d : User) → p (f d) ≡ p d

pub first-by_id : (i : ℕ) (ds : List User) → first (by_id i) ds ≡ get i ds
unfolding by_id
first-by_id i [] = refl
first-by_id i (d ∷ ds) = ground (arith, first-by_id i ds)

pub first_holds : (p : User → Bool) (ds : List User) {u : User} → first p ds ≡ some u → p u ≡ true
first_holds p [] e = cc
first_holds p (d ∷ ds) {u} e = elim (Bool-cases (p d)) [
  | inl hit ↦ ground (arith)
  | inr miss ↦ first_holds p ds (rw (miss) at e)
]

pub get-id : (i : ℕ) (ds : List User) {u : User} → get i ds ≡ some u → u.id ≡ i
get-id i [] e = cc
get-id i (d ∷ ds) {u} e = ground (arith, get-id i ds {u = u})

pub get-update :
    (i j : ℕ) (f : User → User) (ds : List User)
    → KeepsId f
    → get j (update_first (by_id i) f ds) ≡ (if j == i then Option.map f (get i ds) else get j ds)
unfolding by_id
get-update i j f [] k = ground arith
get-update i j f (d ∷ ds) k = ground (arith, k d, get-update i j f ds k)

pub get-update_self :
    (i : ℕ) (f : User → User) (ds : List User)
    → KeepsId f
    → get i (update_first (by_id i) f ds) ≡ Option.map f (get i ds)
get-update_self i f ds k = ground (arith, get-update i i f ds k)

pub get-update_ne :
    (i j : ℕ) (f : User → User) (ds : List User)
    → KeepsId f
    → j ≢ i
    → get j (update_first (by_id i) f ds) ≡ get j ds
get-update_ne i j f ds k h = ground (arith, get-update i j f ds k)

pub first-by_active_id :
    (i : ℕ) (ds : List User)
    → HasDistinctIds ds
    → first (by_active_id i) ds ≡ unless_deleted (get i ds)
unfolding by_active_id
first-by_active_id i [] h = refl
first-by_active_id i (d ∷ ds) h = ground (arith, first-by_active_id i ds h.1)

-- What any filter finds is the document with its identifier.
pub get-first :
    (p : User → Bool) (ds : List User) {u : User}
    → HasDistinctIds ds
    → first p ds ≡ some u
    → get u.id ds ≡ some u
get-first p [] h e = cc
get-first p (d ∷ ds) {u} h e = elim (Bool-cases (p d)) [
  | inl hit ↦ ground arith
  | inr miss ↦ ground (arith, get-first p ds {u = u} h.1)
]

pub first-update_self :
    (p : User → Bool) (f : User → User) (ds : List User) {u : User}
    → Respects p f
    → HasDistinctIds ds
    → first p ds ≡ some u
    → first p (update_first (by_id u.id) f ds) ≡ some (f u)
unfolding by_id
first-update_self p f [] r h e = cc
first-update_self p f (d ∷ ds) {u} r h e =
    ground (arith, r d, first-update_self p f ds {u = u} r h.1, get-first p ds {u = u} h.1)

pub first-update_none :
    (p q : User → Bool) (f : User → User) (ds : List User)
    → Respects p f
    → first p ds ≡ none
    → first p (update_first q f ds) ≡ none
first-update_none p q f [] r e = refl
first-update_none p q f (d ∷ ds) r e = ground (arith, r d, first-update_none p q f ds r)

pub HasDistinctIds-update :
    (i : ℕ) (f : User → User) (ds : List User)
    → KeepsId f
    → HasDistinctIds ds
    → HasDistinctIds (update_first (by_id i) f ds)
unfolding by_id
HasDistinctIds-update i f [] k h = tt
HasDistinctIds-update i f (d ∷ ds) k h =
    ground (arith, k d, HasDistinctIds-update i f ds k h.1, get-update i d.id f ds k)

pub get-append :
    (i : ℕ) (ds : List User) (u : User)
    → get i (ds ++ u ∷ [])
      ≡ elim (get i ds) [ none ↦ if u.id == i then some u else none | some d ↦ some d ]
get-append i [] u = ground arith
get-append i (d ∷ ds) u = ground (arith, get-append i ds u)

pub HasDistinctIds-append :
    (ds : List User) (u : User)
    → HasDistinctIds ds
    → get u.id ds ≡ none
    → HasDistinctIds (ds ++ u ∷ [])
HasDistinctIds-append [] u h e = (refl, tt)
HasDistinctIds-append (d ∷ ds) u h e =
    ground (arith, HasDistinctIds-append ds u h.1, get-append d.id ds u)

-- Two updates of one document are one.
pub update-update :
    (i : ℕ) (f g : User → User) (ds : List User)
    → KeepsId f
    → update_first (by_id i) g (update_first (by_id i) f ds)
      ≡ update_first (by_id i) (λ d. g (f d)) ds
unfolding by_id
update-update i f g [] k = refl
update-update i f g (d ∷ ds) k = ground (arith, k d, update-update i f g ds k)

-- A filter that no document passed finds the updated document, if that passes it.
pub first-update_hit :
    (p : User → Bool) (i : ℕ) (f : User → User) (ds : List User) {u : User}
    → first p ds ≡ none
    → get i ds ≡ some u
    → p (f u) ≡ true
    → first p (update_first (by_id i) f ds) ≡ some (f u)
unfolding by_id
first-update_hit p i f [] e g h = cc
first-update_hit p i f (d ∷ ds) {u} e g h = ground (arith, first-update_hit p i f ds {u = u})

-- And nothing, if that does not.
pub first-update_miss :
    (p : User → Bool) (i : ℕ) (f : User → User) (ds : List User) {u : User}
    → first p ds ≡ none
    → get i ds ≡ some u
    → p (f u) ≡ false
    → first p (update_first (by_id i) f ds) ≡ none
unfolding by_id
first-update_miss p i f [] e g h = refl
first-update_miss p i f (d ∷ ds) {u} e g h = ground (arith, first-update_miss p i f ds {u = u})

pub first-append :
    (p : User → Bool) (ds : List User) (u : User)
    → first p ds ≡ none
    → p u ≡ true
    → first p (ds ++ u ∷ []) ≡ some u
first-append p [] u e h = ground (arith, h)
first-append p (d ∷ ds) u e h = ground (arith, first-append p ds u)

pub update_none :
    (p : User → Bool) (f : User → User) (ds : List User)
    → first p ds ≡ none
    → update_first p f ds ≡ ds
update_none p f [] e = refl
update_none p f (d ∷ ds) e = ground (arith, update_none p f ds)

-- The live document with an identifier is the document with it.
pub update-by_active_id :
    (i : ℕ) (f : User → User) (ds : List User) {u : User}
    → HasDistinctIds ds
    → first (by_active_id i) ds ≡ some u
    → update_first (by_active_id i) f ds ≡ update_first (by_id i) f ds
unfolding by_active_id by_id
update-by_active_id i f [] h e = refl
update-by_active_id i f (d ∷ ds) {u} h e =
    ground (arith, update-by_active_id i f ds {u = u} h.1, first-by_active_id i ds h.1)
