-- ===== src/Io/Encoders.antt =====
-- `encode_ranges_validated` of src/io/sync.rs compared with that of src/io/fsm.rs, with errors taken by
-- their kind.
use bao_tree.Base.{
  ℕ, ◌≤◌, ◌≡◌, refl, arith, ap, le→leb, leb, Bool, true, Bool-cases, inl, inr, Option, none, some,
  List, [], ◌∷◌,
}
use bao_tree.Sizes.{ChunkNum, chunks_to_bytes}
use bao_tree.Outcome.{Outcome, ok, err, panic, ◌>>=◌, map_err}
use bao_tree.Errors.{
  ErrorKind, IoError, EncodeError, io_from_encode, maybe_parent_write, maybe_leaf_write,
}
use bao_tree.Errors.Kinds.{kind-maybe}
use bao_tree.Hashing.{Blake3, RangeSets}
use bao_tree.Node.{TreeNode}
use bao_tree.Tree.{chunk_group_bytes}
use bao_tree.Chunks.{BaoChunk, parent, leaf}
use bao_tree.Io.{Write, ReadAt, Outboard, combine_hash_pair}
use bao_tree.Io.Encode.{push_if, encode_io, hash_block, read_block, encode_validated_items}
use bao_tree.Io.EncodeAsync.{async_validated_items}

-- An outcome with the kind of its error, as an io error.
unfoldable pub kinds : {A : Type 0} → Outcome EncodeError A → Outcome ErrorKind A
kinds m = map_err (λ e. (io_from_encode e).kind) m

module _ {R Hash O D W : Type 0} (s : RangeSets R) (b : Blake3 Hash) (ob : Outboard Hash O)
    (at : ReadAt D) (read_at : D → ℕ → ℕ → Outcome IoError (List ℕ)) (wr : Write W) (file : D)
    (o : O) where
  -- Every block of the chunks fits the buffer, and both readers read it alike.
  unfoldable pub ReadAlike : List (BaoChunk R) → Type 0
  ReadAlike [] = Unit
  ReadAlike (parent node is_root left right ranges ∷ items) = ReadAlike items
  ReadAlike (leaf start size is_root ranges ∷ items) =
      (size ≤ chunk_group_bytes (ob.tree o))
      × (read_at file (chunks_to_bytes start) size
          ≡ at.read_exact_at file (chunks_to_bytes start) size)
      × ReadAlike items

  abbrev pub Agree : List (BaoChunk R) → List Hash → W → Type 0
  Agree items stack w =
      kinds (async_validated_items s b ob read_at wr file o items stack w)
      ≡ kinds (encode_validated_items s b ob at wr file o items stack w)

  -- A write, and what follows it.
  write_alike :
      (v : Outcome IoError W) (later : IoError → EncodeError) (f g : W → Outcome EncodeError W)
      → ((e : IoError) → (io_from_encode (later e)).kind ≡ e.kind)
      → ((w : W) → kinds (f w) ≡ kinds (g w))
      → kinds (map_err later v >>= f) ≡ kinds (encode_io v >>= g)
  unfolding kinds io_from_encode
  write_alike (ok w) later f g kept alike = alike w
  write_alike (err e) later f g kept alike = ap (λ (k : ErrorKind). err k) (kept e)
  write_alike panic later f g kept alike = refl

  parent_alike :
      (node : TreeNode) (is_root left right : Bool) (ranges : R) (items : List (BaoChunk R))
      (stack : List Hash) (w : W)
      → ((stack : List Hash) (w : W) → Agree items stack w)
      → Agree (parent node is_root left right ranges ∷ items) stack w
  unfolding async_validated_items encode_validated_items kinds
  parent_alike node is_root left right ranges items stack w later = from (ob.load o node) refl stack
    where
      from :
          (v : Outcome IoError (Option (Hash × Hash)))
          → ob.load o node ≡ v
          → (stack : List Hash) → Agree (parent node is_root left right ranges ∷ items) stack w
      from (err e) p stack = ground (arith, p)
      from panic p stack = ground (arith, p)
      from (ok none) p stack = ground (arith, p)
      from (ok (some pair)) p [] = ground (arith, p)
      from (ok (some pair)) p (h ∷ below) =
          elim (Bool-cases (b.hash_eq (b.parent_cv pair.0 pair.1 is_root) h)) [
            | inl same ↦
                rw (p, same)
                  (write_alike (wr.write_all w (combine_hash_pair b pair.0 pair.1))
                    (λ e. maybe_parent_write e node)
                    (async_validated_items s b ob read_at wr file o items
                      (push_if left pair.0 (push_if right pair.1 below)))
                    (encode_validated_items s b ob at wr file o items
                      (push_if left pair.0 (push_if right pair.1 below)))
                    (λ e. (kind-maybe e node 0).3)
                    (λ w. later (push_if left pair.0 (push_if right pair.1 below)) w))
            | inr differ ↦ rw (p, differ) refl
          ]

  leaf_alike :
      (start : ChunkNum) (size : ℕ) (is_root : Bool) (ranges : R) (items : List (BaoChunk R))
      (h : Hash) (below : List Hash) (w : W)
      → leb size (chunk_group_bytes (ob.tree o)) ≡ true
      → read_at file (chunks_to_bytes start) size
        ≡ at.read_exact_at file (chunks_to_bytes start) size
      → ((stack : List Hash) (w : W) → Agree items stack w)
      → Agree (leaf start size is_root ranges ∷ items) (h ∷ below) w
  unfolding async_validated_items encode_validated_items kinds read_block
  leaf_alike start size is_root ranges items h below w fits alike later =
      read (at.read_exact_at file (chunks_to_bytes start) size) refl
    where
      hashed :
          (buf : List ℕ)
          → at.read_exact_at file (chunks_to_bytes start) size ≡ ok buf
          → (v : Outcome EncodeError (Hash × List ℕ))
          → hash_block s b (ob.tree o) start buf is_root ranges ≡ v
          → Agree (leaf start size is_root ranges ∷ items) (h ∷ below) w
      hashed buf p (err e) q = rw (alike, fits, p, q) refl
      hashed buf p panic q = rw (alike, fits, p, q) refl
      hashed buf p (ok (actual, to_write)) q = elim (Bool-cases (b.hash_eq actual h)) [
        | inl same ↦
            rw (alike, fits, p, q, same)
              (write_alike (wr.write_all w to_write) (λ e. maybe_leaf_write e start)
                (async_validated_items s b ob read_at wr file o items below)
                (encode_validated_items s b ob at wr file o items below)
                (λ e. (kind-maybe e 0 start).4) (λ w. later below w))
        | inr differ ↦ rw (alike, fits, p, q, differ) refl
      ]

      read :
          (v : Outcome IoError (List ℕ))
          → at.read_exact_at file (chunks_to_bytes start) size ≡ v
          → Agree (leaf start size is_root ranges ∷ items) (h ∷ below) w
      read (ok buf) p = hashed buf p (hash_block s b (ob.tree o) start buf is_root ranges) refl
      read (err e) p = rw (alike, fits, p) refl
      read panic p = rw (alike, fits, p) refl

  -- For chunks whose blocks fit the buffer and are read alike, and whatever the outboard, the writer
  -- and the hashes do, the loops of the two `encode_ranges_validated` come to the same: the same
  -- output, a panic, or errors of one kind.
  pub validated-Agree :
      (items : List (BaoChunk R)) (stack : List Hash) (w : W)
      → ReadAlike items
      → Agree items stack w
  unfolding async_validated_items encode_validated_items ReadAlike kinds
  validated-Agree [] stack w alike = refl
  validated-Agree (parent node is_root left right ranges ∷ items) stack w alike =
      parent_alike node is_root left right ranges items stack w
        (λ stack w. validated-Agree items stack w alike)
  validated-Agree (leaf start size is_root ranges ∷ items) [] w alike = refl
  validated-Agree (leaf start size is_root ranges ∷ items) (h ∷ below) w (fits, same, alike) =
      leaf_alike start size is_root ranges items h below w
        (le→leb size (chunk_group_bytes (ob.tree o)) fits) same
        (λ stack w. validated-Agree items stack w alike)
