-- ===== src/Registry/Tests.antt =====
-- Two tags of one image, and a directory that is no image.
use metalk8s.Prelude.{
  String, true, false, none, some, [], ◌∷◌, contains, ◌==◌, if◌then◌else◌, ◌≡◌, refl,
}
use metalk8s.Registry.{
  Root, manifest, no_manifest, is_image, images_among, images_below, find_images, add_tag, grouped,
  tags_list, tag_manifest, digest_manifest, already_served, blobs, tag_blocks, blocks_of,
  create_config,
}
use metalk8s.Registry.Digests.{digests, Distinct, tag_blocks-digests}

abbrev root : Root
root = record {
  entries = "pause" ∷ "README" ∷ [];
  tags = λ name. if name == "pause" then some ("3.1" ∷ "latest" ∷ "tmp" ∷ []) else none;
  is_dir = λ name tag. true;
  manifest_of = λ name tag.
      if tag == "tmp"
      then no_manifest
      else manifest (some 2) (some "application/vnd.docker.distribution.manifest.v2+json");
  digest = λ name tag. "abc";
  sorted = λ xs. xs;
  payload = λ name tags. "{}";
}

written :
    create_config root false false
    ≡ tags_list "pause" "{}"
      ∷ tag_manifest "pause" "3.1" "abc"
      ∷ digest_manifest "pause" "3.1" "abc"
      ∷ tag_manifest "pause" "latest" "abc"
      ∷ already_served "pause" "latest"
      ∷ blobs "pause" ("3.1" ∷ "latest" ∷ [])
      ∷ []
unfolding is_image images_among images_below find_images add_tag grouped tag_blocks blocks_of
    create_config
written = refl

tag_blocks-digests_example :
    Distinct (digests (tag_blocks root "pause" ("3.1" ∷ "latest" ∷ []) []))
    × ((tag : String)
        → contains tag ("3.1" ∷ "latest" ∷ []) ≡ true
        → contains
            (root.digest "pause" tag)
            (digests (tag_blocks root "pause" ("3.1" ∷ "latest" ∷ []) []))
          ≡ true)
tag_blocks-digests_example = tag_blocks-digests root "pause" ("3.1" ∷ "latest" ∷ [])
