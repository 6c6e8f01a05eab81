-- ===== src/Fserr/Tests.antt =====
-- The error mapping at two errnos.
use g_mountie.Prelude.{ℕ, ◌≡◌}
use g_mountie.Fserr.{estale, to_errno, from_errno}
use g_mountie.Fserr.RoundTrip.{from_errno-to_errno}

from_errno-to_errno_example : from_errno (to_errno estale) ≡ estale
from_errno-to_errno_example = from_errno-to_errno estale

-- ECANCELED has no code of its own.
abbrev ecanceled : ℕ
ecanceled = 125
