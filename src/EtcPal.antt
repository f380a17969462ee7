-- ===== src/EtcPal.antt =====
-- The EtcPal library, which is not part of this repository: its error codes, and the interfaces of
-- the red-black tree and of the handle manager, each with the documented behaviour that the code
-- relies on. A tree holds pointers: `store` is a write through the pointer that a search returned,
-- which changes no key, and `items` is the walk by `etcpal_rbiter_first` and `etcpal_rbiter_next`.
mod Keys
pub mod ListTree
pub mod LeastHandle
pub mod Timers
pub mod Clock
use s_acn.Prelude.{
  ℕ, ◌≤◌, ◌<◌, ◌+◌, ◌≡◌, ◌≢◌, ◌↔◌, ◌⊎◌, Bool, true, false, Option, none, some, List, [], length,
  Member,
}

-- etcpal_error_t, the codes that the modelled code uses
pub data EtcPalError : Type 0 where
  ok not_found invalid no_mem exists not_init sys : EtcPalError

abbrev pub is_ok : EtcPalError → Bool
is_ok ok = true
is_ok _ = false

module _ (V : Type 0) (key : V → ℕ) where
  pub record RbTree : Type 1 where
    pub Tree : Type 0
    pub init : Tree
    pub items : Tree → List V
    pub size : Tree → ℕ
    pub find : ℕ → Tree → Option V
    pub insert : V → Tree → EtcPalError × Tree
    pub remove : ℕ → Tree → EtcPalError × Tree
    pub store : V → Tree → Tree
    pub init-empty : items init ≡ []
    pub size-length : (t : Tree) → size t ≡ length (items t)
    pub key_unique :
        (t : Tree) (v w : V) → Member v (items t) → Member w (items t) → key v ≡ key w → v ≡ w
    pub find-some :
        (t : Tree) (k : ℕ) (v : V) → find k t ≡ some v → Member v (items t) × (key v ≡ k)
    pub find-none : (t : Tree) (k : ℕ) (v : V) → find k t ≡ none → Member v (items t) → key v ≢ k
    pub insert-ok :
        (t : Tree) (v w : V)
        → (insert v t).0 ≡ ok
        → Member w (items (insert v t).1) ↔ ((w ≡ v) ⊎ Member w (items t))
    pub insert-refused : (t : Tree) (v : V) → (insert v t).0 ≢ ok → (insert v t).1 ≡ t
    pub remove-ok :
        (t : Tree) (k : ℕ) (w : V)
        → (remove k t).0 ≡ ok
        → Member w (items (remove k t).1) ↔ (Member w (items t) × (key w ≢ k))
    pub remove-found : (t : Tree) (w : V) → Member w (items t) → (remove (key w) t).0 ≡ ok
    pub remove-refused : (t : Tree) (k : ℕ) → (remove k t).0 ≢ ok → (remove k t).1 ≡ t
    pub store-member :
        (t : Tree) (v u w : V)
        → Member u (items t)
        → key u ≡ key v
        → Member w (items (store v t)) ↔ ((w ≡ v) ⊎ (Member w (items t) × (key w ≢ key v)))
    pub insert-size : (t : Tree) (v : V) → (insert v t).0 ≡ ok → size (insert v t).1 ≡ size t + 1
    pub remove-smaller : (t : Tree) (k : ℕ) → (remove k t).0 ≡ ok → size (remove k t).1 < size t
    pub store-size : (t : Tree) (v : V) → size (store v t) ≡ size t

-- IntHandleManager: the next handle that the callback does not report as in use.
pub record IntHandleManager : Type 1 where
  pub Manager : Type 0
  pub init_manager : ℕ → Manager
  pub get_next : (ℕ → Bool) → Manager → ℕ × Manager
  pub max_value : Manager → ℕ
  pub max_value-init : (m : ℕ) → max_value (init_manager m) ≡ m
  pub max_value-get_next : (u : ℕ → Bool) (m : Manager) → max_value (get_next u m).1 ≡ max_value m
  pub get_next-unused :
      (u : ℕ → Bool) (m : Manager) (k : ℕ)
      → k ≤ max_value m
      → u k ≡ false
      → (u (get_next u m).0 ≡ false) × ((get_next u m).0 ≤ max_value m)
