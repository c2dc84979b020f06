-- ===== src/Cri/Tests.antt =====
-- A container that is there after two rounds of five seconds.
use metalk8s.Prelude.{ℕ, zero, suc, ◌+◌, String, true, false, none, some, [], ◌∷◌, ◌≡◌, refl}
use metalk8s.Exec.{return}
use metalk8s.Cri.{Crictl, list_images, available, pull_image, wait_rounds, wait_container}
use metalk8s.Cri.Managed.{
  no_change, pulled, ret, basename_from, load_cri_image, import_archive, get_image, image_managed,
}

abbrev container : ℕ → String
container zero = "c0ffee"
container (suc n) = ""

abbrev less : ℕ → ℕ
less zero = 0
less (suc n) = n

-- the state is the number of rounds until the container is there, and the time
abbrev crictl : Crictl
crictl = record {
  S = ℕ × ℕ;
  run_all = λ command s. (return (record { retcode = 0; stdout = container s.0; stderr = "" }), s);
  sleep = λ delay s. (less s.0, s.1 + delay);
  images_of = λ text. record { repo_tags = "pause:3.1" ∷ []; repo_digests = [] } ∷ [];
  items_of = λ text. 0;
  digest_of = λ text. none;
}

waited : wait_container crictl "etcd" none 60 5 (2, 0) ≡ (return true, (0, 10))
unfolding wait_container wait_rounds
waited = refl

-- of nine seconds there are two rounds
given_up : wait_container crictl "etcd" none 9 5 (2, 0) ≡ (return false, (0, 10))
unfolding wait_container wait_rounds
given_up = refl

found : (available crictl "pause:3.1" (0, 0)).0 ≡ return true
unfolding available list_images
found = refl

managed : Unit {0}
unfolding image_managed get_image import_archive load_cri_image basename_from pull_image available
    list_images
managed = tt

there :
    (image_managed crictl false "pause:3.1" none (0, 0)).0
    ≡ return (ret (some true) no_change "Image already available")
unfolding managed
there = refl

not_there :
    (image_managed crictl false "etcd:3.4" none (0, 0)).0
    ≡ return (ret (some true) (pulled none) "Pulled image")
unfolding managed
not_there = refl

-- ctr does not say that it failed, and wrote a line
silent :
    (image_managed crictl false "etcd:3.4" (some "/srv/etcd.tar") (0, 0)).0
    ≡ return (ret (some false) no_change "Failed to import archive: c0ffee")
unfolding managed
silent = refl
