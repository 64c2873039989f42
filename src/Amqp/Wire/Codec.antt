-- ===== src/Amqp/Wire/Codec.antt =====
-- A write and a read that belong together.
use gitbook_golang.Prelude.{◌≡◌, refl, sym, ap, ◌∙◌, [], ◌++◌, append_assoc}
use gitbook_golang.Amqp.Wire.{Bytes, ok, Reader, pure, ◌>>=◌, Written, done, failed, return, ◌>>◌}

-- The write succeeds, and the read takes exactly its bytes off the front of any input and gives the
-- value `a`.
pub record Codec {ℓ} {A : Type ℓ} (w : Written) (p : Reader A) (a : A) : Type ℓ where
  pub bytes : Bytes
  pub writes : w ≡ done bytes
  pub reads : (rest : Bytes) → p (bytes ++ rest) ≡ ok a rest

abbrev written : Written → Bytes
written (done xs) = xs
written (failed e) = []

pub done-injective : {xs ys : Bytes} → done xs ≡ done ys → xs ≡ ys
done-injective h = ap written h

-- One write and one read after another.
pub seq {ℓ κ} :
    {A : Type ℓ} {B : Type κ} {v w : Written} {p : Reader A} {a : A} {b : B}
    → Codec v p a
    → (f : A → Reader B) → Codec w (f a) b
    → Codec (v >> w) (p >>= f) b
seq {a} c f d = record {
  bytes = c.bytes ++ d.bytes;
  writes = rw (c.writes, d.writes);
  reads = λ rest. rw (append_assoc, c.reads (d.bytes ++ rest)) (d.reads rest);
}

pub Codec-return {ℓ} : {A : Type ℓ} {a b : A} → a ≡ b → Codec return (pure a) b
Codec-return e = record { bytes = []; writes = refl; reads = λ rest. rw e }

-- The bytes are those that the write gives, however it is computed.
pub reads_written {ℓ} :
    {A : Type ℓ} {w : Written} {p : Reader A} {a : A} {xs : Bytes}
    → Codec w p a
    → w ≡ done xs
    → (rest : Bytes) → p (xs ++ rest) ≡ ok a rest
reads_written {p} c e rest =
    let same : c.bytes ≡ _ = done-injective (sym c.writes ∙ e) in rw (← same) (c.reads rest)

-- A step on the value that was read.
pub Codec-map {ℓ κ} :
    {A : Type ℓ} {B : Type κ} {w : Written} {p : Reader A} {a : A} {b : B}
    → Codec w p a
    → (f : A → Reader B) → ((rest : Bytes) → f a rest ≡ ok b rest)
    → Codec w (p >>= f) b
Codec-map c f e = record {
  bytes = c.bytes;
  writes = c.writes;
  reads = λ rest. rw (c.reads rest) (e rest);
}
