-- ===== src/Fields.antt =====
-- src/Fields.h and src/Messages.h: the tags and the message types that the engine itself reads
-- and writes.
use openfix.Prelude.{ℕ, Bool, ◌||◌, Bytes, codes, bytes_eq}

-- namespace FIELD
abbrev pub begin_seq_no : ℕ
begin_seq_no = 7

abbrev pub begin_string : ℕ
begin_string = 8

abbrev pub body_length : ℕ
body_length = 9

abbrev pub check_sum : ℕ
check_sum = 10

abbrev pub end_seq_no : ℕ
end_seq_no = 16

abbrev pub msg_seq_num : ℕ
msg_seq_num = 34

abbrev pub msg_type : ℕ
msg_type = 35

abbrev pub new_seq_no : ℕ
new_seq_no = 36

abbrev pub poss_dup_flag : ℕ
poss_dup_flag = 43

abbrev pub ref_seq_num : ℕ
ref_seq_num = 45

abbrev pub sender_comp_id : ℕ
sender_comp_id = 49

abbrev pub sending_time : ℕ
sending_time = 52

abbrev pub target_comp_id : ℕ
target_comp_id = 56

abbrev pub text_tag : ℕ
text_tag = 58

abbrev pub encrypt_method : ℕ
encrypt_method = 98

abbrev pub heart_bt_int : ℕ
heart_bt_int = 108

abbrev pub test_req_id : ℕ
test_req_id = 112

abbrev pub orig_sending_time : ℕ
orig_sending_time = 122

abbrev pub gap_fill_flag : ℕ
gap_fill_flag = 123

abbrev pub reset_seq_num_flag : ℕ
reset_seq_num_flag = 141

abbrev pub session_reject_reason : ℕ
session_reject_reason = 373

abbrev pub test_message_indicator : ℕ
test_message_indicator = 464

abbrev pub next_expected_msg_seq_num : ℕ
next_expected_msg_seq_num = 789

-- enum class SessionRejectReason, the values that the session uses.
abbrev pub required_tag_missing : ℕ
required_tag_missing = 1

abbrev pub incorrect_value_for_tag : ℕ
incorrect_value_for_tag = 5

abbrev pub sending_time_problem : ℕ
sending_time_problem = 10

-- namespace MESSAGE
abbrev pub heartbeat : Bytes
heartbeat = codes "0"

abbrev pub test_request : Bytes
test_request = codes "1"

abbrev pub resend_request : Bytes
resend_request = codes "2"

abbrev pub reject : Bytes
reject = codes "3"

abbrev pub sequence_reset : Bytes
sequence_reset = codes "4"

abbrev pub logout : Bytes
logout = codes "5"

abbrev pub logon : Bytes
logon = codes "A"

-- `SESSION_MSGS.count(…)`: the types that are not sent again; a reject is not among them.
unfoldable pub is_session_msg : Bytes → Bool
unfolding bytes_eq
is_session_msg t =
    bytes_eq t heartbeat
    || bytes_eq t test_request
    || bytes_eq t resend_request
    || bytes_eq t sequence_reset
    || bytes_eq t logout
    || bytes_eq t logon
