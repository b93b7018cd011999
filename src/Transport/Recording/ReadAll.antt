-- ===== src/Transport/Recording/ReadAll.antt =====
-- tools/puppet_master_topic.cpp, the loop over a recording's messages: `Next` until it reports the end
-- or an error. `none` is the end of the fuel.
use puppet_master.Base.{ℕ, zero, suc, List, [], ◌∷◌, Option, none, some}
use puppet_master.Core.Status.{Status, ok_status}
use puppet_master.Core.Result.{Result, value, failure}
use puppet_master.Transport.Recording.Types.{RecordedMessage}
use puppet_master.Transport.Recording.Reader.{Reader, next}

-- The messages read, the reader after them, and the error, if there was one.
abbrev pub Readout : Type 0
Readout = List RecordedMessage × Reader × Status

abbrev add_message : RecordedMessage → Option Readout → Option Readout
add_message m none = none
add_message m (some (ms, r, status)) = some (m ∷ ms, r, status)

-- What a call of `Next` leads to.
unfoldable pub collect :
    (Reader → Option Readout) → Option (Reader × Result (Option RecordedMessage)) → Option Readout
collect continue none = none
collect continue (some (r, failure e)) = some ([], r, e)
collect continue (some (r, value none)) = some ([], r, ok_status)
collect continue (some (r, value (some m))) = add_message m (continue r)

unfoldable pub read_all : ℕ → Reader → Option Readout
unfolding collect
read_all zero r = none
read_all (suc fuel) r = collect (read_all fuel) (next r)
