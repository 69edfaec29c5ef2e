-- ===== src/Cpp/Client/Endpoints.antt =====
-- The endpoints of a host, in the order in which they are tried.
use net_file_transfer.Base.{
  ℕ, suc, ◌+◌, ◌≤◌, ◌≡◌, refl, ap, ◌∙◌, List, [], ◌∷◌, Option, some, none, length, if◌then◌else◌,
  arith, Bool-cases, inl, inr, true, false, sym, ◌≢◌,
}
use net_file_transfer.Asio.{Asio, ErrorCode, success, eof, failure}
use net_file_transfer.Cpp.{is_error}

pub some_ne_none : {A : Type 0} {a : A} → some a ≢ none
some_ne_none e = cc

pub some_inj : {A : Type 0} {a b : A} → some a ≡ some b → a ≡ b
some_inj e = cc

-- The first endpoint that accepts, behind the endpoint `e`; how many are tried until then; and the
-- one that is tried last.
unfoldable pub first_accepting : (io : Asio) → io.Endpoint → List io.Endpoint → Option io.Endpoint
first_accepting io e [] = if is_error (io.async_connect e).0 then none else some e
first_accepting io e (e' ∷ es) =
    let behind = first_accepting io e' es in
    if is_error (io.async_connect e).0 then behind else some e

unfoldable pub tries : (io : Asio) → io.Endpoint → List io.Endpoint → ℕ
tries io e [] = 1
tries io e (e' ∷ es) =
    let behind = tries io e' es in if is_error (io.async_connect e).0 then 1 + behind else 1

unfoldable pub last_endpoint : {A : Type 0} → A → List A → A
last_endpoint e [] = e
last_endpoint e (e' ∷ es) = last_endpoint e' es

pub tries-le : (io : Asio) (e : io.Endpoint) (es : List io.Endpoint) → tries io e es ≤ 1 + length es
unfolding tries
tries-le io e [] = omega arith
tries-le io e (e' ∷ es) =
    let ih = tries-le io e' es in
    elim (Bool-cases (is_error (io.async_connect e).0)) [
      | inl refused ↦ rw refused (omega (arith, ih))
      | inr no_error ↦ rw no_error (omega arith)
    ]

-- What one endpoint's answer makes of the two.
module _ (io : Asio) (e : io.Endpoint) where
  pub first_accepting-last : is_error (io.async_connect e).0 ≡ true → first_accepting io e [] ≡ none
  unfolding first_accepting
  first_accepting-last refused = rw refused refl

  pub first_accepting-behind :
      (e' : io.Endpoint) (es : List io.Endpoint)
      → is_error (io.async_connect e).0 ≡ true
      → first_accepting io e (e' ∷ es) ≡ first_accepting io e' es
  unfolding first_accepting
  first_accepting-behind e' es refused = rw refused refl

  pub first_accepting-here :
      (es : List io.Endpoint)
      → is_error (io.async_connect e).0 ≡ false
      → first_accepting io e es ≡ some e
  unfolding first_accepting
  first_accepting-here [] no_error = rw no_error refl
  first_accepting-here (e' ∷ es) no_error = rw no_error refl

module _ (io : Asio) (fuel : ℕ) (e : io.Endpoint) where
  pub tries_behind :
      (e' : io.Endpoint) (es : List io.Endpoint)
      → is_error (io.async_connect e).0 ≡ true
      → tries io e (e' ∷ es) + fuel ≡ suc (tries io e' es + fuel)
  unfolding tries
  tries_behind e' es refused = rw refused (omega arith)

  pub tries_here :
      (es : List io.Endpoint)
      → is_error (io.async_connect e).0 ≡ false
      → tries io e es + fuel ≡ suc fuel
  unfolding tries
  tries_here [] no_error = omega arith
  tries_here (e' ∷ es) no_error = rw no_error (omega arith)

no_error-success : (err : ErrorCode) → is_error err ≡ false → err ≡ success
no_error-success success h = refl
no_error-success eof h = cc
no_error-success (failure n) h = cc

here_no_error :
    (io : Asio) (e : io.Endpoint) (es : List io.Endpoint) {a : io.Endpoint}
    → is_error (io.async_connect e).0 ≡ false
    → first_accepting io e es ≡ some a
    → is_error (io.async_connect a).0 ≡ false
here_no_error io e es no_error first =
    ap (λ x. is_error (io.async_connect x).0)
      (some_inj (sym first ∙ first_accepting-here io e es no_error))
    ∙ no_error

first_accepting-no_error :
    (io : Asio) (e : io.Endpoint) (es : List io.Endpoint) {a : io.Endpoint}
    → first_accepting io e es ≡ some a
    → is_error (io.async_connect a).0 ≡ false
first_accepting-no_error io e [] first = elim (Bool-cases (is_error (io.async_connect e).0)) [
  | inl refused ↦ absurd (some_ne_none (sym first ∙ first_accepting-last io e refused))
  | inr no_error ↦ here_no_error io e [] no_error first
]
first_accepting-no_error io e (e' ∷ es) first =
    elim (Bool-cases (is_error (io.async_connect e).0)) [
      | inl refused ↦
          first_accepting-no_error io e' es
            (sym (first_accepting-behind io e e' es refused) ∙ first)
      | inr no_error ↦ here_no_error io e (e' ∷ es) no_error first
    ]

-- It does accept.
pub first_accepting-accepts :
    (io : Asio) (e : io.Endpoint) (es : List io.Endpoint) {a : io.Endpoint}
    → first_accepting io e es ≡ some a
    → (io.async_connect a).0 ≡ success
first_accepting-accepts io e es first = no_error-success _ (first_accepting-no_error io e es first)
