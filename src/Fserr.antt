-- ===== src/Fserr.antt =====
-- pkg/common/fserr/fserr.go with fserr_linux.go: the wire's error codes and Linux's errnos. The
-- numbers of the errnos are Linux's.
pub mod RoundTrip
mod Tests
use g_mountie.Prelude.{ℕ, Bool, Option, none, some, List, [], ◌∷◌, ◌==◌, if◌then◌else◌}

pub data FsError : Type 0 where
  fs_ok : FsError
  eperm enoent eio enxio ebadf eagain eacces ebusy eexist exdev enotdir eisdir einval emfile :
      FsError
  enfile efbig enospc erofs emlink erange enametoolong enosys enotempty eloop eoverflow edquot :
      FsError
  estale enotsup eno_xattr eintr etxtbsy edeadlk enolck : FsError

-- The table `toErrno`, with its platform's entry.
unfoldable pub to_errno : FsError → ℕ
to_errno fs_ok = 0
to_errno eperm = 1
to_errno enoent = 2
to_errno eio = 5
to_errno enxio = 6
to_errno ebadf = 9
to_errno eagain = 11
to_errno eacces = 13
to_errno ebusy = 16
to_errno eexist = 17
to_errno exdev = 18
to_errno enotdir = 20
to_errno eisdir = 21
to_errno einval = 22
to_errno emfile = 24
to_errno enfile = 23
to_errno efbig = 27
to_errno enospc = 28
to_errno erofs = 30
to_errno emlink = 31
to_errno erange = 34
to_errno enametoolong = 36
to_errno enosys = 38
to_errno enotempty = 39
to_errno eloop = 40
to_errno eoverflow = 75
to_errno edquot = 122
to_errno estale = 116
to_errno enotsup = 95
to_errno eno_xattr = 61
to_errno eintr = 4
to_errno etxtbsy = 26
to_errno edeadlk = 35
to_errno enolck = 37

abbrev pub mapped : List FsError
mapped =
    eperm ∷ enoent ∷ eio ∷ enxio ∷ ebadf ∷ eagain ∷ eacces ∷ ebusy ∷ eexist ∷ exdev ∷ enotdir
    ∷ eisdir ∷ einval ∷ emfile ∷ enfile ∷ efbig ∷ enospc ∷ erofs ∷ emlink ∷ erange ∷ enametoolong
    ∷ enosys ∷ enotempty ∷ eloop ∷ eoverflow ∷ edquot ∷ estale ∷ enotsup ∷ eno_xattr ∷ eintr
    ∷ etxtbsy ∷ edeadlk ∷ enolck ∷ []

-- The reverse table, read at an errno.
unfoldable pub find_error : ℕ → List FsError → Option FsError
unfolding to_errno
find_error n [] = none
find_error n (e ∷ es) = if to_errno e == n then some e else find_error n es

abbrev pub or_eio : Option FsError → FsError
or_eio none = eio
or_eio (some e) = e

unfoldable pub from_errno : ℕ → FsError
unfolding find_error
from_errno n = if n == 0 then fs_ok else or_eio (find_error n mapped)

pub data GrpcCode : Type 0 where
  not_found permission_denied unauthenticated other_code : GrpcCode

unfoldable pub from_grpc_code : GrpcCode → FsError
from_grpc_code not_found = enoent
from_grpc_code permission_denied = eacces
from_grpc_code unauthenticated = eacces
from_grpc_code other_code = eio
