-- ===== src/Volumes/States/Leftover.antt =====
-- `removed` where the loop device of a sparse volume is not there (any more).
use metalk8s.Prelude.{ℕ, String, ◌<>◌, true, false, some, List, ◌≡◌}
use metalk8s.Prelude.Dict.{Dict}
use metalk8s.Exec.{return}
use metalk8s.Volumes.{VolumeInfo, Host, Machine, failed, enoent, sparse, Volume, get_volume}
use metalk8s.Volumes.Device.{device_path, is_cleaned_up, clean_up}
use metalk8s.Volumes.States.{ret, removed}

module _ (host : Host) (v : Volume) (size : List ℕ) (is_sparse : v.kind ≡ sparse size)
    {m : Machine host} {text : String}
    (absent : host.open_readonly m.state (device_path v) ≡ failed enoent text) where
  -- The method does nothing, and returns.
  clean_up-absent : clean_up host v m ≡ (return tt, m)
  unfolding clean_up
  clean_up-absent = rw (is_sparse, absent)

-- For a sparse volume that is not cleaned up and whose device has no link under
-- /dev/disk/by-uuid, `removed` reports that it cleaned the volume up, and leaves the machine, the
-- backing file included, as its check found it.
pub removed-leftover :
    (host : Host) (volumes : Dict VolumeInfo) (name : String) (v : Volume) (size : List ℕ)
    (m checked : Machine host) (text : String)
    → get_volume volumes name ≡ return v
    → v.kind ≡ sparse size
    → is_cleaned_up host v m ≡ (return false, checked)
    → host.open_readonly checked.state (device_path v) ≡ failed enoent text
    → removed host volumes false name m ≡ (
      return (ret name (some "Cleaned up") (some true) ("Volume " <> name <> " cleaned up.")),
      checked,
    )
unfolding removed
removed-leftover host volumes name v size m checked text known is_sparse dirty absent =
    rw known (rw dirty (rw (clean_up-absent host v size is_sparse {m = checked} absent)))
