-- ===== src/Errors.antt =====
-- src/tools/errors.rs: the Linux error codes, and the result of a system call.
use mankoros.Base.{ℕ}

pub data SysError : Type 0 where
  eperm : SysError
  enoent : SysError
  esrch : SysError
  eintr : SysError
  eio : SysError
  enxio : SysError
  e2big : SysError
  enoexec : SysError
  ebadf : SysError
  echild : SysError
  eagain : SysError
  enomem : SysError
  eacces : SysError
  efault : SysError
  enotblk : SysError
  ebusy : SysError
  eexist : SysError
  exdev : SysError
  enodev : SysError
  enotdir : SysError
  eisdir : SysError
  einval : SysError
  enfile : SysError
  emfile : SysError
  enotty : SysError
  etxtbsy : SysError
  efbig : SysError
  enospc : SysError
  espipe : SysError
  erofs : SysError
  emlink : SysError
  epipe : SysError
  edom : SysError
  erange : SysError
  edeadlk : SysError
  enametoolong : SysError
  enolck : SysError
  enosys : SysError
  enotempty : SysError
  enotconn : SysError
  econnrefused : SysError

unfoldable pub code : SysError → ℕ
code eperm = 1
code enoent = 2
code esrch = 3
code eintr = 4
code eio = 5
code enxio = 6
code e2big = 7
code enoexec = 8
code ebadf = 9
code echild = 10
code eagain = 11
code enomem = 12
code eacces = 13
code efault = 14
code enotblk = 15
code ebusy = 16
code eexist = 17
code exdev = 18
code enodev = 19
code enotdir = 20
code eisdir = 21
code einval = 22
code enfile = 23
code emfile = 24
code enotty = 25
code etxtbsy = 26
code efbig = 27
code enospc = 28
code espipe = 29
code erofs = 30
code emlink = 31
code epipe = 32
code edom = 33
code erange = 34
code edeadlk = 35
code enametoolong = 36
code enolck = 37
code enosys = 38
code enotempty = 39
code enotconn = 107
code econnrefused = 111

-- `SysResult`
pub data SysResult {ℓ} (A : Type ℓ) : Type ℓ where
  done : A → SysResult A
  err : SysError → SysResult A
