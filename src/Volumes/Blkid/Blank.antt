-- ===== src/Volumes/Blkid/Blank.antt =====
-- When the probe calls a device blank, libblkid has seen all of it and found nothing.
use metalk8s.Prelude.{
  ℕ, zero, suc, ◌+◌, ◌≤◌, ◌<◌, String, true, false, Option, none, some, [], ◌∷◌, ◌≡◌, ◌≢◌, sym, ap,
  ◌∙◌, arith, eq_iff,
}
use metalk8s.Prelude.Dict
use metalk8s.Prelude.Dict.{Dict, get-put, has-put}
use mathlib.Core.Path.{subst}
use native.Mathlib.Decide.{ℕ_discrete}
use metalk8s.Exec.{return}
use metalk8s.Action.Rules.{>>=-eq-return}
use metalk8s.Volumes.{Code, negative, code, Probe, Host}
use metalk8s.Volumes.Blkid.{
  DeviceInfo, check_error_code, check_null_pointer, configure, read_values, probe_values,
  probe_device, get_from_blkid, get_superblock_flags, info_from,
}

check_error_code-eq-return : (c : Code) {n : ℕ} → check_error_code c ≡ return n → c ≡ code n
unfolding check_error_code
check_error_code-eq-return negative h = cc
check_error_code-eq-return (code n) h = cc

not_null :
    (path : String) (p : Option Probe) {probe : Probe}
    → check_null_pointer "blkid_new_probe_from_filename" path p ≡ return probe
    → p ≡ some probe
unfolding check_null_pointer
not_null path none h = cc
not_null path (some q) h = cc

-- The value at `i` was read, and is neither a type of filesystem nor of partition table.
pub record Harmless (probe : Probe) (i : ℕ) : Type 0 where
  pub status : ℕ
  pub was_read : (probe.get_value i).0 ≡ code status
  pub no_type : (probe.get_value i).1 ≢ "TYPE"
  pub no_table : (probe.get_value i).1 ≢ "PTTYPE"

record Before (info : Dict String) : Type 0 where
  no_type : Dict.get "TYPE" info ≡ none
  no_table : Dict.has "PTTYPE" info ≡ false

module _ (probe : Probe) where
  put-Before :
      (name text : String) (info : Dict String)
      → Before (Dict.put name text info)
      → Before info × (name ≢ "TYPE") × (name ≢ "PTTYPE")
  put-Before name text info b =
      let t = sym (get-put name "TYPE" text info) ∙ b.no_type in
      let p = sym (has-put name "PTTYPE" text info) ∙ b.no_table in
      (
        record { no_type = ground (arith, t); no_table = ground (arith, p) },
        (λ e. ground (arith, t, eq_iff name "TYPE")),
        (λ e. ground (arith, p, eq_iff name "PTTYPE")),
      )

  read_values-Harmless :
      (index left : ℕ) (info : Dict String) {found : Dict String}
      → read_values probe index left info ≡ return found
      → Before found
      → Before info × ((i : ℕ) → index ≤ i → i < index + left → Harmless probe i)
  unfolding read_values
  read_values-Harmless index zero info {found} e b =
      let same : found ≡ info = cc in (subst Before same b, (λ i l u. absurd (omega arith)))
  read_values-Harmless index (suc left) info e b =
      let (result, name, text) = probe.get_value index in
      let (status, checked, rest) = >>=-eq-return (check_error_code result) _ e in
      let (before, harmless) =
        read_values-Harmless (index + 1) left (Dict.put name text info) rest b in
      let (first, no_type, no_table) = put-Before name text info before in
      (
        first,
        λ i l u. elim (ℕ_discrete index i) [
          | yes same ↦ subst (Harmless probe) same (record {
            status = status;
            was_read = check_error_code-eq-return result checked;
            no_type = no_type;
            no_table = no_table;
          })
          | no other ↦ harmless i (omega arith) (omega arith)
        ],
      )

  -- the whole of the probe
  pub data Nothing : Type 0 where
    undetected : probe.do_safeprobe ≡ code 1 → Nothing
    harmless :
        (number : ℕ)
        → probe.numof_values ≡ code number
        → ((i : ℕ) → i < number → Harmless probe i)
        → Nothing

  probe_values-Nothing :
      (info : DeviceInfo)
      → probe_values probe ≡ return info
      → info.fstype ≡ none
      → info.has_partition ≡ false
      → Nothing
  unfolding probe_values
  probe_values-Nothing info e t p =
      let (number, checked, rest) = >>=-eq-return (check_error_code probe.numof_values) _ e in
      let (found, read, made) = >>=-eq-return (read_values probe 0 number []) _ rest in
      let same : info_from found ≡ info = cc in
      let before : Before found = record {
        no_type = ap (λ (d : DeviceInfo). d.fstype) same ∙ t;
        no_table = ap (λ (d : DeviceInfo). d.has_partition) same ∙ p;
      } in
      let (_, all_harmless) = read_values-Harmless 0 number [] read before in
      harmless number (check_error_code-eq-return probe.numof_values checked)
        (λ i l. all_harmless i (omega arith) (omega arith))

  probe_device-Nothing :
      (info : DeviceInfo)
      → probe_device probe ≡ return info
      → info.fstype ≡ none
      → info.has_partition ≡ false
      → Nothing
  unfolding probe_device
  probe_device-Nothing info e t p =
      let (found, checked, rest) = >>=-eq-return (check_error_code probe.do_safeprobe) _ e in
      let seen = check_error_code-eq-return probe.do_safeprobe checked in
      elim (ℕ_discrete found 1) [
        | yes one ↦ undetected (rw one at seen)
        | no other ↦ probe_values-Nothing info (ground (arith, rest)) t p
      ]

-- When `_get_from_blkid` gives neither a filesystem nor a partition table for a device, libblkid
-- has opened it and has either found nothing at all, or has given each of its values without an
-- error, none of them named TYPE or PTTYPE.
pub get_from_blkid-Nothing :
    (host : Host) (state : host.State) (path : String) (info : DeviceInfo)
    → get_from_blkid host state path ≡ return info
    → info.fstype ≡ none
    → info.has_partition ≡ false
    → (probe : Probe) × (host.new_probe state path ≡ some probe) × Nothing probe
unfolding get_from_blkid
get_from_blkid-Nothing host state path info e t p =
    let (flags, _, e₁) = >>=-eq-return (get_superblock_flags ("UUID" ∷ "TYPE" ∷ [])) _ e in
    let (probe, opened, e₂) =
      >>=-eq-return
        (check_null_pointer "blkid_new_probe_from_filename" path (host.new_probe state path)) _
        e₁ in
    let (_, _, e₃) = >>=-eq-return (configure probe true flags true 0) _ e₂ in
    (
      probe,
      not_null path (host.new_probe state path) opened,
      probe_device-Nothing probe info e₃ t p,
    )
