-- ===== src/Messages/Capabilities/Defaults.antt =====
-- The capability bits of messages.go that a client asks for by default.
use tds.Base.{ℕ, List, [], ◌∷◌}

abbrev pub req_lang : ℕ
req_lang = 1

abbrev pub req_rpc : ℕ
req_rpc = 2

abbrev pub req_bcp : ℕ
req_bcp = 5

abbrev pub req_cursor : ℕ
req_cursor = 6

abbrev pub req_dynf : ℕ
req_dynf = 7

abbrev pub req_msg : ℕ
req_msg = 8

abbrev pub req_param : ℕ
req_param = 9

abbrev pub data_int1 : ℕ
data_int1 = 10

abbrev pub data_int2 : ℕ
data_int2 = 11

abbrev pub data_int4 : ℕ
data_int4 = 12

abbrev pub data_bit : ℕ
data_bit = 13

abbrev pub data_char : ℕ
data_char = 14

abbrev pub data_vchar : ℕ
data_vchar = 15

abbrev pub data_bin : ℕ
data_bin = 16

abbrev pub data_vbin : ℕ
data_vbin = 17

abbrev pub data_mny8 : ℕ
data_mny8 = 18

abbrev pub data_mny4 : ℕ
data_mny4 = 19

abbrev pub data_date8 : ℕ
data_date8 = 20

abbrev pub data_date4 : ℕ
data_date4 = 21

abbrev pub data_flt4 : ℕ
data_flt4 = 22

abbrev pub data_flt8 : ℕ
data_flt8 = 23

abbrev pub data_num : ℕ
data_num = 24

abbrev pub data_text : ℕ
data_text = 25

abbrev pub data_image : ℕ
data_image = 26

abbrev pub data_dec : ℕ
data_dec = 27

abbrev pub data_lchar : ℕ
data_lchar = 28

abbrev pub data_lbin : ℕ
data_lbin = 29

abbrev pub data_intn : ℕ
data_intn = 30

abbrev pub data_datetimen : ℕ
data_datetimen = 31

abbrev pub data_moneyn : ℕ
data_moneyn = 32

abbrev pub csr_prev : ℕ
csr_prev = 33

abbrev pub csr_first : ℕ
csr_first = 34

abbrev pub csr_last : ℕ
csr_last = 35

abbrev pub csr_abs : ℕ
csr_abs = 36

abbrev pub csr_rel : ℕ
csr_rel = 37

abbrev pub csr_multi : ℕ
csr_multi = 38

abbrev pub con_inband : ℕ
con_inband = 40

abbrev pub data_sensitivity : ℕ
data_sensitivity = 45

abbrev pub data_boundary : ℕ
data_boundary = 46

abbrev pub proto_dynproc : ℕ
proto_dynproc = 48

abbrev pub data_fltn : ℕ
data_fltn = 49

abbrev pub data_int8 : ℕ
data_int8 = 51

abbrev pub data_void : ℕ
data_void = 52

abbrev pub dol_bulk : ℕ
dol_bulk = 53

abbrev pub widetable : ℕ
widetable = 59

abbrev pub data_uint2 : ℕ
data_uint2 = 61

abbrev pub data_uint4 : ℕ
data_uint4 = 62

abbrev pub data_uint8 : ℕ
data_uint8 = 63

abbrev pub data_uintn : ℕ
data_uintn = 64

abbrev pub cur_implicit : ℕ
cur_implicit = 65

abbrev pub data_nlbin : ℕ
data_nlbin = 66

abbrev pub data_date : ℕ
data_date = 71

abbrev pub data_time : ℕ
data_time = 72

abbrev pub csr_scroll : ℕ
csr_scroll = 74

abbrev pub csr_insensitive : ℕ
csr_insensitive = 76

abbrev pub csr_semisensitive : ℕ
csr_semisensitive = 77

abbrev pub req_srvpktsize : ℕ
req_srvpktsize = 79

abbrev pub data_unitext : ℕ
data_unitext = 80

abbrev pub req_largeident : ℕ
req_largeident = 83

abbrev pub data_xml : ℕ
data_xml = 85

abbrev pub req_curinfo3 : ℕ
req_curinfo3 = 86

abbrev pub req_dbrpc2 : ℕ
req_dbrpc2 = 87

abbrev pub data_bigdatetime : ℕ
data_bigdatetime = 93

abbrev pub data_usecs : ℕ
data_usecs = 94

abbrev pub rpcparam_lob : ℕ
rpcparam_lob = 95

abbrev pub req_dyn_batch : ℕ
req_dyn_batch = 98

abbrev pub req_lang_batch : ℕ
req_lang_batch = 99

abbrev pub data_loblocator : ℕ
data_loblocator = 101

abbrev pub res_notdsdebug : ℕ
res_notdsdebug = 33

abbrev pub object_nojava1 : ℕ
object_nojava1 = 36

abbrev pub res_noxnldata : ℕ
res_noxnldata = 61

abbrev pub res_suppress_fmt : ℕ
res_suppress_fmt = 62

abbrev pub res_no_tdscontrol : ℕ
res_no_tdscontrol = 67

unfoldable pub default_req_capabilities : List ℕ
default_req_capabilities =
    data_loblocator ∷ req_lang_batch ∷ req_dyn_batch ∷ rpcparam_lob ∷ data_usecs ∷ data_bigdatetime
    ∷ req_dbrpc2 ∷ req_curinfo3 ∷ data_xml ∷ req_largeident ∷ data_unitext ∷ req_srvpktsize
    ∷ csr_semisensitive ∷ csr_insensitive ∷ csr_scroll ∷ data_time ∷ data_date ∷ data_nlbin
    ∷ cur_implicit ∷ data_uintn ∷ data_uint8 ∷ data_uint4 ∷ data_uint2 ∷ widetable ∷ dol_bulk
    ∷ data_void ∷ data_int8 ∷ data_fltn ∷ proto_dynproc ∷ data_boundary ∷ data_sensitivity
    ∷ con_inband ∷ csr_multi ∷ csr_rel ∷ csr_abs ∷ csr_last ∷ csr_first ∷ csr_prev ∷ data_moneyn
    ∷ data_datetimen ∷ data_intn ∷ data_lbin ∷ data_lchar ∷ data_dec ∷ data_image ∷ data_text
    ∷ data_num ∷ data_flt8 ∷ data_flt4 ∷ data_date4 ∷ data_date8 ∷ data_mny4 ∷ data_mny8 ∷ data_vbin
    ∷ data_bin ∷ data_vchar ∷ data_char ∷ data_bit ∷ data_int4 ∷ data_int2 ∷ data_int1 ∷ req_param
    ∷ req_msg ∷ req_dynf ∷ req_cursor ∷ req_bcp ∷ req_rpc ∷ req_lang ∷ []

unfoldable pub default_res_capabilities : List ℕ
default_res_capabilities =
    res_no_tdscontrol ∷ res_suppress_fmt ∷ res_noxnldata ∷ res_notdsdebug ∷ object_nojava1 ∷ []
