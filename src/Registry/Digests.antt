-- ===== src/Registry/Digests.antt =====
-- That a digest is served at one location of an image.
use mathlib.Core.Bool.{true≢false}
use mathlib.Core.Path.{subst}
use metalk8s.Prelude.{
  String, Bool, true, false, ◌||◌, List, [], ◌∷◌, contains, ◌==◌, if◌then◌else◌, ◌≡◌, refl, sym,
  ◌∙◌, eq_iff, eq_refl,
}
use metalk8s.Registry.{
  Root, Block, constants, tags_list, tag_manifest, digest_manifest, already_served, blobs,
  tag_blocks,
}

-- the digests that have a location
unfoldable pub digests : List Block → List String
digests [] = []
digests (digest_manifest name tag d ∷ bs) = d ∷ digests bs
digests (constants ∷ bs) = digests bs
digests (tags_list name payload ∷ bs) = digests bs
digests (tag_manifest name tag d ∷ bs) = digests bs
digests (already_served name tag ∷ bs) = digests bs
digests (blobs name tags ∷ bs) = digests bs

-- No text stands twice in a list.
unfoldable pub Distinct : List String → Type 0
Distinct [] = Unit
Distinct (x ∷ xs) = (contains x xs ≡ false) × Distinct xs

contains_cons :
    (h x : String) (xs : List String) → contains h xs ≡ true → contains h (x ∷ xs) ≡ true
contains_cons h x xs k = by_test (x == h) (contains h xs) k
  where
    by_test : (b c : Bool) → c ≡ true → (b || c) ≡ true
    by_test true c k = refl
    by_test false c k = k

-- two texts of which one is seen and the other is not
differ :
    (d h : String) (seen : List String)
    → contains h seen ≡ true
    → contains d seen ≡ false
    → (d == h) ≡ false
differ d h seen hs ds = by_test (d == h) refl
  where
    by_test : (b : Bool) → (d == h) ≡ b → b ≡ false
    by_test false e = refl
    by_test true e =
        absurd
          (true≢false (sym (subst (λ x. contains x seen ≡ true) (sym ((eq_iff d h).0 e)) hs) ∙ ds))

shift : (a b c : Bool) → ((a || b) || c) ≡ true → (b || (a || c)) ≡ true
shift true true c k = refl
shift true false c k = refl
shift false b c k = k

-- the digests of a turn, with those of the rest
abbrev turn : Bool → String → String → String → List Block → List Block
turn served name tag d rest =
    tag_manifest name tag d
    ∷ (if served then already_served name tag else digest_manifest name tag d)
    ∷ rest

module _ (root : Root) (name : String) where
  tag_blocks-fresh :
      (tags seen : List String) (h : String)
      → contains h seen ≡ true
      → contains h (digests (tag_blocks root name tags seen)) ≡ false
  unfolding tag_blocks digests
  tag_blocks-fresh [] seen h k = refl
  tag_blocks-fresh (tag ∷ tags) seen h k =
      let d = root.digest name tag in
      by_seen d (contains d seen) refl
        (tag_blocks-fresh tags (d ∷ seen) h (contains_cons h d seen k))
    where
      by_seen :
          (d : String) (b : Bool)
          → contains d seen ≡ b
          → contains h (digests (tag_blocks root name tags (d ∷ seen))) ≡ false
          → contains h (digests (turn b name tag d (tag_blocks root name tags (d ∷ seen)))) ≡ false
      by_seen d true e r = r
      by_seen d false e r = rw (differ d h seen k e) r

  tag_blocks-Distinct :
      (tags seen : List String) → Distinct (digests (tag_blocks root name tags seen))
  unfolding tag_blocks digests Distinct
  tag_blocks-Distinct [] seen = tt
  tag_blocks-Distinct (tag ∷ tags) seen =
      let d = root.digest name tag in
      by_seen d (contains d seen) (tag_blocks-fresh tags (d ∷ seen) d (rw (eq_refl d)))
        (tag_blocks-Distinct tags (d ∷ seen))
    where
      by_seen :
          (d : String) (b : Bool)
          → contains d (digests (tag_blocks root name tags (d ∷ seen))) ≡ false
          → Distinct (digests (tag_blocks root name tags (d ∷ seen)))
          → Distinct (digests (turn b name tag d (tag_blocks root name tags (d ∷ seen))))
      by_seen d true e r = r
      by_seen d false e r = (e, r)

  -- the digest of a tag is seen before, or it has a location
  Served : List String → List String → String → Type 0
  Served tags seen d =
      (contains d seen || contains d (digests (tag_blocks root name tags seen))) ≡ true

  tag_blocks-Served :
      (tags seen : List String) (tag : String)
      → contains tag tags ≡ true
      → Served tags seen (root.digest name tag)
  unfolding tag_blocks digests Served
  tag_blocks-Served [] seen tag k = absurd (true≢false (sym k))
  tag_blocks-Served (t ∷ tags) seen tag k =
      by_tag (t == tag) refl k (λ k'. tag_blocks-Served tags (root.digest name t ∷ seen) tag k')
    where
      d : String
      d = root.digest name t

      at_head :
          (b : Bool)
          → contains d seen ≡ b
          → (b || contains d (digests (turn b name t d (tag_blocks root name tags (d ∷ seen)))))
            ≡ true
      at_head true e = refl
      at_head false e = rw (eq_refl d)

      seen_or :
          (h : String) (r b : Bool)
          → (d == h) ≡ b
          → contains d seen ≡ true
          → ((b || contains h seen) || r) ≡ true
          → (contains h seen || r) ≡ true
      seen_or h r true e ds k = rw (subst (λ x. contains x seen ≡ true) ((eq_iff d h).0 e) ds)
      seen_or h r false e ds k = k

      later :
          (h : String) (b : Bool)
          → contains d seen ≡ b
          → (((d == h) || contains h seen)
              || contains h (digests (tag_blocks root name tags (d ∷ seen))))
            ≡ true
          → (contains h seen
              || contains h (digests (turn b name t d (tag_blocks root name tags (d ∷ seen)))))
            ≡ true
      later h true e r = seen_or h _ (d == h) refl e r
      later h false e r = shift (d == h) (contains h seen) _ r

      by_tag :
          (b : Bool)
          → (t == tag) ≡ b
          → (b || contains tag tags) ≡ true
          → (contains tag tags ≡ true → Served tags (d ∷ seen) (root.digest name tag))
          → Served (t ∷ tags) seen (root.digest name tag)
      by_tag true e k rest =
          subst (λ x. Served (t ∷ tags) seen (root.digest name x)) ((eq_iff t tag).0 e)
            (at_head (contains d seen) refl)
      by_tag false e k rest = later (root.digest name tag) (contains d seen) refl (rest k)

-- The digests of the tags of an image that have a location are distinct, and every digest of a tag
-- is among them.
pub tag_blocks-digests :
    (root : Root) (name : String) (tags : List String)
    → Distinct (digests (tag_blocks root name tags []))
      × ((tag : String)
          → contains tag tags ≡ true
          → contains (root.digest name tag) (digests (tag_blocks root name tags [])) ≡ true)
unfolding Served
tag_blocks-digests root name tags =
    (tag_blocks-Distinct root name tags [], λ tag k. tag_blocks-Served root name tags [] tag k)
