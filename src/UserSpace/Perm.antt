-- ===== src/UserSpace/Perm.antt =====
-- The permissions of an area and the accesses that fault, src/process/user_space/user_area.rs.
use mankoros.Base.{Bool, true, false, not, ◌&&◌, if◌then◌else◌, Run, ok, panic}
use mankoros.Pte.{PteFlags, no_flags}

pub record UserAreaPerm : Type 0 where
  pub read : Bool
  pub write : Bool
  pub execute : Bool

abbrev pub read_write : UserAreaPerm
read_write = record { read = true; write = true; execute = false }

unfoldable pub match_area_perm : PteFlags → UserAreaPerm → Bool
match_area_perm f perm =
    if perm.read && not f.r
    then false
    else if perm.write && not f.w
    then false
    else if perm.execute && not f.x
    then false
    else true

-- `From<UserAreaPerm> for PTEFlags`
unfoldable pub pte_flags_of : UserAreaPerm → PteFlags
pte_flags_of val =
    let base = record no_flags { v = true; u = true } in
    let with_read = if val.read then record base { r = true; a = true } else base in
    let with_write = if val.write then record with_read { w = true; d = true } else with_read in
    if val.execute then record with_write { x = true } else with_write

pub record PageFaultAccessType : Type 0 where
  pub read : Bool
  pub write : Bool
  pub execute : Bool

abbrev pub ro : PageFaultAccessType
ro = record { read = true; write = false; execute = false }

abbrev pub rw_access : PageFaultAccessType
rw_access = record { read = true; write = true; execute = false }

abbrev pub rx : PageFaultAccessType
rx = record { read = true; write = false; execute = true }

-- `From<UserAreaPerm> for PageFaultAccessType`
unfoldable pub access_of : UserAreaPerm → PageFaultAccessType
access_of val = if val.write then rw_access else if val.execute then rx else ro

-- the causes of a trap that are named, and any other
pub data Exception : Type 0 where
  instruction_page_fault : Exception
  load_page_fault : Exception
  store_page_fault : Exception
  other_exception : Exception

unfoldable pub from_exception : Exception → Run PageFaultAccessType
from_exception instruction_page_fault = ok rx
from_exception load_page_fault = ok ro
from_exception store_page_fault = ok rw_access
from_exception other_exception = panic

unfoldable pub can_access : PageFaultAccessType → UserAreaPerm → Bool
can_access access flag =
    if access.write && not flag.write
    then false
    else if access.execute && not flag.execute
    then false
    else true
