-- ===== src/E2e/Nonce.antt =====
-- The nonces of a stream: length, and no two chunks share one.
use send_to.Prelude.{
  ℕ, ◌^◌, ◌<◌, ◌≡◌, Bool, true, false, [], ◌∷◌, ◌++◌, Bytes, arith, length, take, replicate,
  length-append, length-take, if◌then◌else◌, ap, drop, drop-append,
}
use send_to.E2e.{be32, e2e_nonce, e2e_nonce_prefix_size}

nonce_head : Bytes → Bytes
nonce_head prefix = take e2e_nonce_prefix_size (prefix ++ replicate e2e_nonce_prefix_size 0)

length-nonce_head : (prefix : Bytes) → length (nonce_head prefix) ≡ 7
unfolding nonce_head
length-nonce_head prefix = omega (
  arith,
  length-take {0} 7 (prefix ++ replicate {A = ℕ} 7 0),
  length-append {0} prefix (replicate {A = ℕ} 7 0),
)

pub length-e2e_nonce :
    (prefix : Bytes) (counter : ℕ) (final : Bool) → length (e2e_nonce prefix counter final) ≡ 12
unfolding e2e_nonce nonce_head
length-e2e_nonce prefix counter final = omega (
  arith,
  length-nonce_head prefix,
  length-append {0} (nonce_head prefix) (be32 counter ++ (if final then 1 else 0) ∷ []),
)

nonce_tail :
    (prefix : Bytes) (counter : ℕ) (final : Bool)
    → drop 7 (e2e_nonce prefix counter final) ≡ be32 counter ++ (if final then 1 else 0) ∷ []
unfolding e2e_nonce nonce_head
nonce_tail prefix counter final =
    drop-append 7 (nonce_head prefix) (be32 counter ++ (if final then 1 else 0) ∷ [])
      (length-nonce_head prefix)

tail_injective :
    (c c' : ℕ) (f f' : Bool)
    → c < 2 ^ 32
    → c' < 2 ^ 32
    → be32 c ++ (if f then 1 else 0) ∷ [] ≡ be32 c' ++ (if f' then 1 else 0) ∷ []
    → (c ≡ c') × (f ≡ f')
unfolding be32
tail_injective c c' true true h h' e = ground arith
tail_injective c c' true false h h' e = ground arith
tail_injective c c' false true h h' e = ground arith
tail_injective c c' false false h h' e = ground arith

-- Under one prefix, two nonces with 32-bit counters are equal only for the same counter and the
-- same final marker: the metadata and the chunks of a stream never share a nonce.
pub e2e_nonce-injective :
    (prefix : Bytes) (c c' : ℕ) (f f' : Bool)
    → c < 2 ^ 32
    → c' < 2 ^ 32
    → e2e_nonce prefix c f ≡ e2e_nonce prefix c' f'
    → (c ≡ c') × (f ≡ f')
e2e_nonce-injective prefix c c' f f' h h' e =
    tail_injective c c' f f' h h' (
      ground
        (arith, nonce_tail prefix c f, nonce_tail prefix c' f', ap (λ (n : Bytes). drop 7 n) e))
