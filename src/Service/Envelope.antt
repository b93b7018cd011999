-- ===== src/Service/Envelope.antt =====
-- src/service/service.cpp: the header of a request and of a reply, and its bytes.
pub mod Numbers
pub mod Laws
use puppet_master.Base.{
  ℕ, suc, ◌+◌, ◌-◌, ◌%◌, ◌^◌, List, ◌∷◌, ◌++◌, length, Option, none, some, Bool, ◌||◌, not, ltb,
  ◌==◌, if◌then◌else◌, drop,
}
use puppet_master.Base.Int.{ℤ, pos, negsuc}
use puppet_master.Core.Status.{StatusCode}
use puppet_master.Transport.Recording.Bytes.{put_le, put_u32, put_u64, get_le, get_u32, get_u64}

abbrev pub request_magic : ℕ
request_magic = 0x51524d50

abbrev pub reply_magic : ℕ
reply_magic = 0x50524d50

abbrev pub header_version : ℕ
header_version = 2

abbrev pub header_size : ℕ
header_size = 32

-- `PutU16` and `GetU16`.
unfoldable pub put_u16 : ℕ → List ℕ
put_u16 = put_le 2

unfoldable pub get_u16 : List ℕ → ℕ
get_u16 = get_le 2

-- The value of a code of the enumeration.
unfoldable pub status_number : StatusCode → ℕ
status_number StatusCode.ok = 0
status_number StatusCode.cancelled = 1
status_number StatusCode.unknown = 2
status_number StatusCode.invalid_argument = 3
status_number StatusCode.not_found = 4
status_number StatusCode.already_exists = 5
status_number StatusCode.failed_precondition = 6
status_number StatusCode.out_of_range = 7
status_number StatusCode.permission_denied = 8
status_number StatusCode.resource_exhausted = 9
status_number StatusCode.unsupported = 10
status_number StatusCode.unavailable = 11
status_number StatusCode.deadline_exceeded = 12
status_number StatusCode.data_loss = 13
status_number StatusCode.internal = 14

-- The conversion of a number to a code, for a number that is one.
unfoldable pub status_code_of : ℕ → StatusCode
status_code_of n =
    if n == 0
    then StatusCode.ok
    else if n == 1
    then StatusCode.cancelled
    else if n == 2
    then StatusCode.unknown
    else if n == 3
    then StatusCode.invalid_argument
    else if n == 4
    then StatusCode.not_found
    else if n == 5
    then StatusCode.already_exists
    else if n == 6
    then StatusCode.failed_precondition
    else if n == 7
    then StatusCode.out_of_range
    else if n == 8
    then StatusCode.permission_denied
    else if n == 9
    then StatusCode.resource_exhausted
    else if n == 10
    then StatusCode.unsupported
    else if n == 11
    then StatusCode.unavailable
    else if n == 12
    then StatusCode.deadline_exceeded
    else if n == 13
    then StatusCode.data_loss
    else StatusCode.internal

-- The conversions between signed and unsigned 64-bit numbers.
unfoldable pub to_unsigned : ℤ → ℕ
to_unsigned (pos n) = n % 2 ^ 64
to_unsigned (negsuc n) = 2 ^ 64 - 1 - n % 2 ^ 64

unfoldable pub to_signed : ℕ → ℤ
to_signed n = if ltb n (2 ^ 63) then pos n else negsuc (2 ^ 64 - 1 - n)

pub record Header : Type 0 where
  pub magic : ℕ
  pub status : StatusCode
  pub client_id : ℕ
  pub request_id : ℕ
  pub budget_ns : ℤ

-- `Encode`.
unfoldable pub encode : Header → List ℕ → List ℕ
encode h payload =
    put_u32 h.magic
    ++ (put_u16 header_version
        ++ (put_u16 (status_number h.status)
            ++ (put_u64 h.client_id
                ++ (put_u64 h.request_id ++ (put_u64 (to_unsigned h.budget_ns) ++ payload)))))

abbrev pub header_at : List ℕ → ℕ → Header
header_at message magic = record {
  magic = magic;
  status = status_code_of (get_u16 (drop 6 message));
  client_id = get_u64 (drop 8 message);
  request_id = get_u64 (drop 16 message);
  budget_ns = to_signed (get_u64 (drop 24 message));
}

-- The messages that are dropped: too short, of another kind or version, or with no status.
unfoldable pub is_foreign : List ℕ → ℕ → Bool
is_foreign message magic =
    ltb (length message) header_size
    || not (get_u32 message == magic)
    || not (get_u16 (drop 4 message) == header_version)
    || ltb 14 (get_u16 (drop 6 message))

-- `Decode`.
unfoldable pub decode : List ℕ → ℕ → Option (Header × List ℕ)
decode message magic =
    if is_foreign message magic
    then none
    else some (header_at message magic, drop header_size message)
