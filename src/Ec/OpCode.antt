-- ===== src/Ec/OpCode.antt =====
-- `ECOpCode` of jamule/ec/codes.py. A member of the enumeration is its value: no two agree.
use amarr.Prelude.{ℕ, List, [], ◌∷◌, elem, if◌then◌else◌}
use amarr.Py.Result.{Result, ok, err, value_error}

abbrev pub ec_op_noop : ℕ
ec_op_noop = 0x01

abbrev pub ec_op_auth_req : ℕ
ec_op_auth_req = 0x02

abbrev pub ec_op_auth_fail : ℕ
ec_op_auth_fail = 0x03

abbrev pub ec_op_auth_ok : ℕ
ec_op_auth_ok = 0x04

abbrev pub ec_op_failed : ℕ
ec_op_failed = 0x05

abbrev pub ec_op_strings : ℕ
ec_op_strings = 0x06

abbrev pub ec_op_misc_data : ℕ
ec_op_misc_data = 0x07

abbrev ec_op_shutdown : ℕ
ec_op_shutdown = 0x08

abbrev pub ec_op_add_link : ℕ
ec_op_add_link = 0x09

abbrev pub ec_op_stat_req : ℕ
ec_op_stat_req = 0x0A

abbrev ec_op_get_connstate : ℕ
ec_op_get_connstate = 0x0B

abbrev pub ec_op_stats : ℕ
ec_op_stats = 0x0C

abbrev pub ec_op_get_dload_queue : ℕ
ec_op_get_dload_queue = 0x0D

abbrev ec_op_get_uload_queue : ℕ
ec_op_get_uload_queue = 0x0E

abbrev pub ec_op_get_shared_files : ℕ
ec_op_get_shared_files = 0x10

abbrev ec_op_shared_set_prio : ℕ
ec_op_shared_set_prio = 0x11

abbrev pub ec_op_partfile_swap_a4af_this : ℕ
ec_op_partfile_swap_a4af_this = 0x16

abbrev pub ec_op_partfile_swap_a4af_this_auto : ℕ
ec_op_partfile_swap_a4af_this_auto = 0x17

abbrev pub ec_op_partfile_swap_a4af_others : ℕ
ec_op_partfile_swap_a4af_others = 0x18

abbrev pub ec_op_partfile_pause : ℕ
ec_op_partfile_pause = 0x19

abbrev pub ec_op_partfile_resume : ℕ
ec_op_partfile_resume = 0x1A

abbrev pub ec_op_partfile_stop : ℕ
ec_op_partfile_stop = 0x1B

abbrev ec_op_partfile_prio_set : ℕ
ec_op_partfile_prio_set = 0x1C

abbrev pub ec_op_partfile_delete : ℕ
ec_op_partfile_delete = 0x1D

abbrev pub ec_op_partfile_set_cat : ℕ
ec_op_partfile_set_cat = 0x1E

abbrev pub ec_op_dload_queue : ℕ
ec_op_dload_queue = 0x1F

abbrev ec_op_uload_queue : ℕ
ec_op_uload_queue = 0x20

abbrev pub ec_op_shared_files : ℕ
ec_op_shared_files = 0x22

abbrev ec_op_sharedfiles_reload : ℕ
ec_op_sharedfiles_reload = 0x23

abbrev ec_op_rename_file : ℕ
ec_op_rename_file = 0x25

abbrev pub ec_op_search_start : ℕ
ec_op_search_start = 0x26

abbrev pub ec_op_search_stop : ℕ
ec_op_search_stop = 0x27

abbrev pub ec_op_search_results : ℕ
ec_op_search_results = 0x28

abbrev pub ec_op_search_progress : ℕ
ec_op_search_progress = 0x29

abbrev pub ec_op_download_search_result : ℕ
ec_op_download_search_result = 0x2A

abbrev ec_op_ipfilter_reload : ℕ
ec_op_ipfilter_reload = 0x2B

abbrev ec_op_get_server_list : ℕ
ec_op_get_server_list = 0x2C

abbrev ec_op_server_list : ℕ
ec_op_server_list = 0x2D

abbrev ec_op_server_disconnect : ℕ
ec_op_server_disconnect = 0x2E

abbrev ec_op_server_connect : ℕ
ec_op_server_connect = 0x2F

abbrev ec_op_server_remove : ℕ
ec_op_server_remove = 0x30

abbrev ec_op_server_add : ℕ
ec_op_server_add = 0x31

abbrev ec_op_server_update_from_url : ℕ
ec_op_server_update_from_url = 0x32

abbrev ec_op_addlogline : ℕ
ec_op_addlogline = 0x33

abbrev ec_op_adddebuglogline : ℕ
ec_op_adddebuglogline = 0x34

abbrev ec_op_get_log : ℕ
ec_op_get_log = 0x35

abbrev ec_op_get_debuglog : ℕ
ec_op_get_debuglog = 0x36

abbrev ec_op_get_serverinfo : ℕ
ec_op_get_serverinfo = 0x37

abbrev ec_op_log : ℕ
ec_op_log = 0x38

abbrev ec_op_debuglog : ℕ
ec_op_debuglog = 0x39

abbrev ec_op_serverinfo : ℕ
ec_op_serverinfo = 0x3A

abbrev ec_op_reset_log : ℕ
ec_op_reset_log = 0x3B

abbrev ec_op_reset_debuglog : ℕ
ec_op_reset_debuglog = 0x3C

abbrev ec_op_clear_serverinfo : ℕ
ec_op_clear_serverinfo = 0x3D

abbrev ec_op_get_last_log_entry : ℕ
ec_op_get_last_log_entry = 0x3E

abbrev pub ec_op_get_preferences : ℕ
ec_op_get_preferences = 0x3F

abbrev pub ec_op_set_preferences : ℕ
ec_op_set_preferences = 0x40

abbrev pub ec_op_create_category : ℕ
ec_op_create_category = 0x41

abbrev ec_op_update_category : ℕ
ec_op_update_category = 0x42

abbrev ec_op_delete_category : ℕ
ec_op_delete_category = 0x43

abbrev ec_op_get_statsgraphs : ℕ
ec_op_get_statsgraphs = 0x44

abbrev ec_op_statsgraphs : ℕ
ec_op_statsgraphs = 0x45

abbrev ec_op_get_statstree : ℕ
ec_op_get_statstree = 0x46

abbrev ec_op_statstree : ℕ
ec_op_statstree = 0x47

abbrev ec_op_kad_start : ℕ
ec_op_kad_start = 0x48

abbrev ec_op_kad_stop : ℕ
ec_op_kad_stop = 0x49

abbrev ec_op_connect : ℕ
ec_op_connect = 0x4A

abbrev ec_op_disconnect : ℕ
ec_op_disconnect = 0x4B

abbrev ec_op_kad_update_from_url : ℕ
ec_op_kad_update_from_url = 0x4D

abbrev ec_op_kad_bootstrap_from_ip : ℕ
ec_op_kad_bootstrap_from_ip = 0x4E

abbrev pub ec_op_auth_salt : ℕ
ec_op_auth_salt = 0x4F

abbrev pub ec_op_auth_passwd : ℕ
ec_op_auth_passwd = 0x50

abbrev ec_op_ipfilter_update : ℕ
ec_op_ipfilter_update = 0x51

abbrev ec_op_get_update : ℕ
ec_op_get_update = 0x52

abbrev ec_op_clear_completed : ℕ
ec_op_clear_completed = 0x53

abbrev ec_op_client_swap_to_another_file : ℕ
ec_op_client_swap_to_another_file = 0x54

abbrev ec_op_shared_file_set_comment : ℕ
ec_op_shared_file_set_comment = 0x55

abbrev ec_op_server_set_static_prio : ℕ
ec_op_server_set_static_prio = 0x56

abbrev ec_op_friend : ℕ
ec_op_friend = 0x57

-- Every member, in the order of the class.
abbrev pub op_codes : List ℕ
op_codes =
    ec_op_noop ∷ ec_op_auth_req ∷ ec_op_auth_fail ∷ ec_op_auth_ok ∷ ec_op_failed ∷ ec_op_strings
    ∷ ec_op_misc_data ∷ ec_op_shutdown ∷ ec_op_add_link ∷ ec_op_stat_req ∷ ec_op_get_connstate
    ∷ ec_op_stats ∷ ec_op_get_dload_queue ∷ ec_op_get_uload_queue ∷ ec_op_get_shared_files
    ∷ ec_op_shared_set_prio ∷ ec_op_partfile_swap_a4af_this ∷ ec_op_partfile_swap_a4af_this_auto
    ∷ ec_op_partfile_swap_a4af_others ∷ ec_op_partfile_pause ∷ ec_op_partfile_resume
    ∷ ec_op_partfile_stop ∷ ec_op_partfile_prio_set ∷ ec_op_partfile_delete ∷ ec_op_partfile_set_cat
    ∷ ec_op_dload_queue ∷ ec_op_uload_queue ∷ ec_op_shared_files ∷ ec_op_sharedfiles_reload
    ∷ ec_op_rename_file ∷ ec_op_search_start ∷ ec_op_search_stop ∷ ec_op_search_results
    ∷ ec_op_search_progress ∷ ec_op_download_search_result ∷ ec_op_ipfilter_reload
    ∷ ec_op_get_server_list ∷ ec_op_server_list ∷ ec_op_server_disconnect ∷ ec_op_server_connect
    ∷ ec_op_server_remove ∷ ec_op_server_add ∷ ec_op_server_update_from_url ∷ ec_op_addlogline
    ∷ ec_op_adddebuglogline ∷ ec_op_get_log ∷ ec_op_get_debuglog ∷ ec_op_get_serverinfo ∷ ec_op_log
    ∷ ec_op_debuglog ∷ ec_op_serverinfo ∷ ec_op_reset_log ∷ ec_op_reset_debuglog
    ∷ ec_op_clear_serverinfo ∷ ec_op_get_last_log_entry ∷ ec_op_get_preferences
    ∷ ec_op_set_preferences ∷ ec_op_create_category ∷ ec_op_update_category ∷ ec_op_delete_category
    ∷ ec_op_get_statsgraphs ∷ ec_op_statsgraphs ∷ ec_op_get_statstree ∷ ec_op_statstree
    ∷ ec_op_kad_start ∷ ec_op_kad_stop ∷ ec_op_connect ∷ ec_op_disconnect
    ∷ ec_op_kad_update_from_url ∷ ec_op_kad_bootstrap_from_ip ∷ ec_op_auth_salt ∷ ec_op_auth_passwd
    ∷ ec_op_ipfilter_update ∷ ec_op_get_update ∷ ec_op_clear_completed
    ∷ ec_op_client_swap_to_another_file ∷ ec_op_shared_file_set_comment
    ∷ ec_op_server_set_static_prio ∷ ec_op_friend ∷ []

-- `ECOpCode.from_value`: `cls(value)` raises `ValueError` where no member has the value.
unfoldable pub from_value : ℕ → Result ℕ
from_value v = if elem v op_codes then ok v else err value_error
