-- ===== src/Store/Method.antt =====
-- Methods on `&mut self` that return `Result`: what was written before an error stays written, so
-- the store comes back beside the error too.
use avangard.Prelude.{Result, ok, err}
use avangard.Store.Types.{Error, WalStore}

abbrev pub Method {ℓ} : Type ℓ → Type ℓ
Method A = WalStore → Result Error A × WalStore

abbrev pub continue {ℓ κ} :
    {A : Type ℓ} {B : Type κ}
    → (A → WalStore → Result Error B × WalStore)
    → Result Error A × WalStore
    → Result Error B × WalStore
continue f (ok a, store) = f a store
continue f (err e, store) = (err e, store)

infixl 5 ◌>>=◌ ◌>>◌
abbrev pub ◌>>=◌ {ℓ κ} : {A : Type ℓ} {B : Type κ} → Method A → (A → Method B) → Method B
◌>>=◌ m f store = continue f (m store)

abbrev pub ◌>>◌ {ℓ κ} : {A : Type ℓ} {B : Type κ} → Method A → Method B → Method B
m >> k = m >>= λ _. k

abbrev pub pure {ℓ} : {A : Type ℓ} → A → Method A
pure a store = (ok a, store)

abbrev pub fail {ℓ} : {A : Type ℓ} → Error → Method A
fail e store = (err e, store)

-- A call that does not touch the store, with `?`.
abbrev pub lift {ℓ} : {A : Type ℓ} → Result Error A → Method A
lift r store = (r, store)

abbrev pub gets {ℓ} : {A : Type ℓ} → (WalStore → A) → Method A
gets f store = (ok (f store), store)

abbrev pub modify : (WalStore → WalStore) → Method (Unit {0})
modify f store = (ok tt, f store)
