-- ===== src/Error.antt =====
-- The errors of crates/opake-core/src/error.rs that the modelled code returns or matches on, and
-- `Result`. A formatted message is its format string with the arguments, not rendered.
use Prim.Native.String.{String}
use opake.Base.{ℕ, ◌≡◌, refl, List, Str, ◌⊎◌, inl, inr}

pub record Message : Type 0 where
  pub format : String
  pub arguments : List Str

abbrev pub message : String → List Str → Message
message f xs = record { format = f; arguments = xs }

pub data Error : Type 0 where
  indexer : ℕ → Message → Error
  workspace_not_indexed : Str → Error
  not_workspace_member : Str → Error
  not_found : Message → Error
  ambiguous_name : Str → ℕ → List Str → Error
  invalid_record : Message → Error
  chain_cycle : Str → Error
  chain_genesis_mismatch : Str → Str → Error
  chain_authority_violation : Str → Str → Error
  chain_additivity_violation : Str → Str → List Str → Error
  chain_link_corrupt : Str → Error
  chain_link_needs_newer_client : Str → ℕ → ℕ → Error
  xrpc : ℕ → Message → Error
  auth : Message → Error
  serialization : Message → Error
  sse : Message → Error
  visibility_timeout : Str → ℕ → Error
  current_group_key_unavailable : Str → Error

pub data Result {ℓ} (Value : Type ℓ) : Type ℓ where
  err : Error → Result Value
  ok : Value → Result Value

module _ {ℓ κ} {Value : Type ℓ} {Next : Type κ} where
  infixl 5 ◌>>=◌
  -- Rust's `?`: an error ends the function.
  abbrev pub ◌>>=◌ : Result Value → (Value → Result Next) → Result Next
  err e >>= next = err e
  ok v >>= next = next v

  -- A chain that succeeds succeeded in its first step.
  pub >>=-ok :
      (first : Result Value) (next : Value → Result Next) {out : Next}
      → (first >>= next) ≡ ok out
      → (v : Value) × (first ≡ ok v) × (next v ≡ ok out)
  >>=-ok (err e) next h = cc
  >>=-ok (ok v) next h = (v, refl, h)

pub Result-cases {ℓ} :
    {A : Type ℓ} (r : Result A) → ((e : Error) × (r ≡ err e)) ⊎ ((a : A) × (r ≡ ok a))
Result-cases (ok a) = inr (a, refl)
Result-cases (err e) = inl (e, refl)
