-- ===== src/Registry.antt =====
-- buildchain/static-container-registry/static-container-registry.py: the images below a directory and
-- the nginx locations that serve them as a registry.
pub mod Digests
mod Tests
use metalk8s.Prelude.{
  ℕ, String, ◌<>◌, Bool, true, false, not, ◌&&◌, Option, none, some, List, [], ◌∷◌, ◌++◌, map,
  contains, join, nat_eq, ◌==◌, if◌then◌else◌,
}
use metalk8s.Prelude.Dict.{Dict}

-- what stands at `<root>/<name>/<tag>/manifest.json`
pub data Manifest : Type 0 where
  no_manifest not_json : Manifest
  -- its `schemaVersion` and its `mediaType`
  manifest : Option ℕ → Option String → Manifest

-- The directory: its entries, each a directory of tags or something else.
pub record Root : Type 0 where
  pub entries : List String
  -- the tags of an entry; none where it is no directory
  pub tags : String → Option (List String)
  pub is_dir : String → String → Bool
  pub manifest_of : String → String → Manifest
  -- the SHA-256 of the file
  pub digest : String → String → String
  -- `sorted`, of texts without a double
  pub sorted : List String → List String
  -- `json.dumps` of the name and the tags
  pub payload : String → List String → String

abbrev is_version : Option ℕ → Bool
is_version none = false
is_version (some n) = nat_eq n 2

abbrev is_media_type : Option String → Bool
is_media_type none = false
is_media_type (some t) = t == "application/vnd.docker.distribution.manifest.v2+json"

-- the tests on a manifest
unfoldable pub is_image : Manifest → Bool
is_image no_manifest = false
is_image not_json = false
is_image (manifest version media_type) = is_version version && is_media_type media_type

unfoldable pub images_among : Root → String → List String → List (String × String)
images_among root name [] = []
images_among root name (tag ∷ tags) =
    let rest = images_among root name tags in
    if root.is_dir name tag && is_image (root.manifest_of name tag)
    then (name, tag) ∷ rest
    else rest

abbrev images_at : Root → String → Option (List String) → List (String × String)
images_at root name none = []
images_at root name (some tags) = images_among root name tags

-- the loop of `find_images`
unfoldable pub images_below : Root → List String → List (String × String)
images_below root [] = []
images_below root (name ∷ names) = images_at root name (root.tags name) ++ images_below root names

unfoldable pub find_images : Root → List (String × String)
find_images root = images_below root root.entries

-- `images.setdefault(name, set()).add(tag)`
unfoldable pub add_tag : String → String → Dict (List String) → Dict (List String)
add_tag name tag [] = (name, tag ∷ []) ∷ []
add_tag name tag ((n, tags) ∷ images) =
    let rest = add_tag name tag images in
    if n == name
    then (n, if contains tag tags then tags else tags ++ tag ∷ []) ∷ images
    else (n, tags) ∷ rest

unfoldable pub grouped : List (String × String) → Dict (List String) → Dict (List String)
grouped [] images = images
grouped ((name, tag) ∷ found) images = grouped found (add_tag name tag images)

-- what is written: a location for the tags of an image, one for a tag, one for a digest, a comment
-- for a digest that is served already, and one for the blobs
pub data Block : Type 0 where
  constants : Block
  tags_list : String → String → Block
  tag_manifest digest_manifest : String → String → String → Block
  already_served : String → String → Block
  blobs : String → List String → Block

-- the loop over the tags of an image, with the digests that were seen
unfoldable pub tag_blocks : Root → String → List String → List String → List Block
tag_blocks root name [] seen = []
tag_blocks root name (tag ∷ tags) seen =
    let hexdigest = root.digest name tag in
    let rest = tag_blocks root name tags (hexdigest ∷ seen) in
    tag_manifest name tag hexdigest
    ∷ (if contains hexdigest seen
        then already_served name tag
        else digest_manifest name tag hexdigest)
    ∷ rest

abbrev image_blocks : Root → String → List String → List Block
image_blocks root name tags =
    tags_list name (root.payload name (root.sorted tags))
      ∷ tag_blocks root name (root.sorted tags) []
    ++ blobs name (root.sorted tags) ∷ []

abbrev tags_in : String → Dict (List String) → List String
tags_in name [] = []
tags_in name ((n, tags) ∷ images) = if n == name then tags else tags_in name images

abbrev keys : Dict (List String) → List String
keys [] = []
keys ((n, tags) ∷ images) = n ∷ keys images

unfoldable pub blocks_of : Root → List String → Dict (List String) → List Block
blocks_of root [] images = []
blocks_of root (name ∷ names) images =
    image_blocks root name (tags_in name images) ++ blocks_of root names images

abbrev with_images : Bool → List Block → List Block
with_images true blocks = []
with_images false blocks = blocks

-- `create_config`, by the blocks that it writes
unfoldable pub create_config : Root → Bool → Bool → List Block
create_config root with_constants only_constants =
    let images = grouped (find_images root) [] in
    (if with_constants then constants ∷ [] else [])
    ++ with_images only_constants (blocks_of root (root.sorted (keys images)) images)
