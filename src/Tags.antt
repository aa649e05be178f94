-- ===== src/Tags.antt =====
-- The constants of src/tags.rs: tag numbers and the two delimiter bytes.
use fix_engine.Base.{ℕ}

abbrev pub begin_string : ℕ
begin_string = 8

abbrev pub body_length : ℕ
body_length = 9

abbrev pub msg_type : ℕ
msg_type = 35

abbrev pub sender_comp_id : ℕ
sender_comp_id = 49

abbrev pub target_comp_id : ℕ
target_comp_id = 56

abbrev pub msg_seq_num : ℕ
msg_seq_num = 34

abbrev pub sending_time : ℕ
sending_time = 52

abbrev pub checksum : ℕ
checksum = 10

abbrev pub poss_dup_flag : ℕ
poss_dup_flag = 43

abbrev pub poss_resend : ℕ
poss_resend = 97

abbrev pub orig_sending_time : ℕ
orig_sending_time = 122

abbrev pub encrypt_method : ℕ
encrypt_method = 98

abbrev pub heartbt_int : ℕ
heartbt_int = 108

abbrev pub reset_seq_num_flag : ℕ
reset_seq_num_flag = 141

abbrev pub test_req_id : ℕ
test_req_id = 112

abbrev pub begin_seq_no : ℕ
begin_seq_no = 7

abbrev pub end_seq_no : ℕ
end_seq_no = 16

abbrev pub gap_fill_flag : ℕ
gap_fill_flag = 123

abbrev pub new_seq_no : ℕ
new_seq_no = 36

abbrev pub ref_seq_num : ℕ
ref_seq_num = 45

abbrev pub ref_msg_type : ℕ
ref_msg_type = 372

abbrev pub session_reject_reason : ℕ
session_reject_reason = 373

abbrev pub text : ℕ
text = 58

abbrev pub username : ℕ
username = 553

abbrev pub password : ℕ
password = 554

abbrev pub cl_ord_id : ℕ
cl_ord_id = 11

abbrev pub orig_cl_ord_id : ℕ
orig_cl_ord_id = 41

abbrev pub order_id : ℕ
order_id = 37

abbrev pub exec_id : ℕ
exec_id = 17

abbrev pub exec_type : ℕ
exec_type = 150

abbrev pub ord_status : ℕ
ord_status = 39

abbrev pub symbol : ℕ
symbol = 55

abbrev pub side : ℕ
side = 54

abbrev pub order_qty : ℕ
order_qty = 38

abbrev pub ord_type : ℕ
ord_type = 40

abbrev pub price : ℕ
price = 44

abbrev pub time_in_force : ℕ
time_in_force = 59

abbrev pub transact_time : ℕ
transact_time = 60

abbrev pub last_qty : ℕ
last_qty = 32

abbrev pub last_px : ℕ
last_px = 31

abbrev pub leaves_qty : ℕ
leaves_qty = 151

abbrev pub cum_qty : ℕ
cum_qty = 14

abbrev pub avg_px : ℕ
avg_px = 6

abbrev pub account : ℕ
account = 1

abbrev pub handl_inst : ℕ
handl_inst = 21

abbrev pub security_exchange : ℕ
security_exchange = 207

abbrev pub md_req_id : ℕ
md_req_id = 262

abbrev pub subscription_request_type : ℕ
subscription_request_type = 263

abbrev pub market_depth : ℕ
market_depth = 264

abbrev pub no_md_entry_types : ℕ
no_md_entry_types = 267

abbrev pub md_entry_type : ℕ
md_entry_type = 269

abbrev pub no_md_entries : ℕ
no_md_entries = 268

abbrev pub md_entry_px : ℕ
md_entry_px = 270

abbrev pub md_entry_size : ℕ
md_entry_size = 271

abbrev pub md_update_action : ℕ
md_update_action = 279

abbrev pub soh : ℕ
soh = 1

abbrev pub equals : ℕ
equals = b'='
