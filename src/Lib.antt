-- ===== src/Lib.antt =====
-- The CERN httpd: a web server and proxy (Daemon) on the common library of the web (Library).
--
-- A request names a document. The daemon decides by templates with wildcards what it stands for and
-- who may have it: HTWild.c compiles and matches the templates of the daemon's configuration,
-- HTRules.c keeps and applies the library's older list of rules, and HTAAUtil.c matches the
-- templates of protected documents. They compare C strings by HTString.c, read lines of
-- configuration by its HTNextField, and decode names by HTParse.c. Passwords come encoded by
-- HTUU.c; HTAuth.c takes them apart and HTPasswd.c looks them up in a password file. HTGroup.c
-- reads groups of users and addresses by the lexer of HTLex.c and decides whether a caller is a
-- member; its masks are templates of HTWild.c. HTACL.c finds the record of an access control list
-- for a document by the templates of HTAAUtil.c and parses the rest of it by HTGroup.c. What a
-- remote server sends goes through streams: HTMIME.c takes the header off, HTims.c answers 304 for
-- an old document, whose date HTSUtils.c reads.
--
-- The modules and the code that they model:
--   Base      shared names, Boolean tests, lists over the native numbers, integers
--   Str       Library/Implementation/HTString.c, the macros TOLOWER, TOUPPER and WHITE of HTUtils.h
--             and tcp.h, and the functions of the C library that the others call: strcasecomp,
--             strncasecomp, strcasestr, HTSACopy (sa_copy), HTSACat (sa_cat), HTNextField
--             (next_field)
--   Parse     Library/Implementation/HTParse.c: HTEscape and HTUnEscape (Parse.Escape), HTStrip and
--             HTCleanTelnetString (Parse.Clean), scan and HTParse (ht_parse, Parse.Address),
--             HTRelative (ht_relative, Parse.Relative)
--   Wild      Daemon/Implementation/HTWild.c: HTPattern_new (pattern_new), match (match_pattern),
--             replace, HTPattern_match (pattern_match), HTPattern_url_match, HTPattern_firstWild
--   AaUtil    Library/Implementation/HTAAUtil.c: HTAA_templateMatch (template_match),
--             HTAA_templateCaseMatch, HTAA_makeProtectionTemplate, HTAAScheme_enum, HTAAScheme_name
--   Rules     Library/Implementation/HTRules.c: HTAddRule (add_rule), HTClearRules, HTTranslate
--             (translate); HTSetConfiguration and HTLoadRules (Rules.Config)
--   Uu        Library/Implementation/HTUU.c: HTUU_encode (encode) and HTUU_decode (decode)
--   Group     Daemon/Implementation/HTGroup.c: group files (parse_group_file, Group.Parse), their
--             cache (read_group_file), HTIpMaskMatch (ip_mask_match), HTAA_userAndInetInGroup
--             (user_and_inet_in_group, Group.Member)
--   Mime      Library/Implementation/HTMIME.c: HTMIMEConvert (mime_convert), HTNetMIME (net_mime),
--             HTMIME_put_character (put_character), HTMIME_put_string (put_string), HTMIME_write
--             (write)
--   Ims       Daemon/Implementation/HTims.c: the stream between a remote server and the client that
--             turns an old document into 304: HTIfModSinceStream (if_mod_since_stream),
--             IMS_put_char (put_char), IMS_put_block (ims_put_block), IMS_decide (decide)
--   AaFile    Daemon/Implementation/HTAAFile.c: HTAAFile_nextRec (next_rec), HTAAFile_readField
--             (read_field), HTAAFile_readList (read_list)
--   Acl       Daemon/Implementation/HTACL.c: HTAA_getAclEntry (get_acl_entry),
--             HTAA_getFullAclEntry (get_full_acl_entry), HTAA_getAclFilename; HTMethod_inList of
--             Library/Implementation/HTAccess.c (method_in_list)
--   BTree     Library/Implementation/HTBTree.c: HTBTree_new (btree_new), HTBTree_add (btree_add),
--             HTBTree_next (btree_next); HTDirStrCaseCmp of Library/Implementation/HTDirBrw.c
--             (dir_str_case_cmp, BTree.Directory)
--   Passwd    Daemon/Implementation/HTPasswd.c: HTAA_encryptPasswd (encrypt_passwd),
--             HTAA_passwdMatch (passwd_match), HTAAFile_readPasswdRec (read_passwd_rec),
--             HTAA_checkPassword (check_password)
--   Auth      Daemon/Implementation/HTAuth.c: decompose_auth_string, HTAA_authenticate (authenticate)
--   Image     Daemon/Implementation/HTImage.c, the program htimage: the lexer and the parser of a
--             picture's configuration (parse_picture, Image.Picture), the areas (get_url,
--             Image.Area), main (htimage, Image.Main)
--   Times     Daemon/Implementation/HTSUtils.c: HTIsNumber (is_number), make_num, make_month,
--             parse_http_time, of which Times.Print describes the dates; parse_time (Times.Span)
--   HtList    Library/Implementation/HTList.c: HTList_addObject (add_object) and its kin
--   Assoc     Library/Implementation/HTAssoc.c: HTAssocList_add (assoc_add), HTAssocList_lookup
--   Lex       Daemon/Implementation/HTLex.c: lex, unlex and lex_verbose
--
-- A C string is the list of its bytes before the terminator, NULL is `none`, and a pointer into a
-- string is the suffix that it points to. A plain `char` is signed where its sign matters
-- (char_value). An int of htimage and the salt of a password have 32 bits (to_int); in Times an int
-- has no bound. Module-wide variables, such as the list of rules, are arguments and results;
-- HTRuleCaseSense is the argument `case_sense`, parse_http_time is the argument `parse` of Ims, which
-- the model of it fits (Times.InPlace). The functions of fopen, HTStreamStack and mktime are
-- arguments too (open_file, stream_stack, make_time), and so are crypt and, for htimage, the
-- operations on float and double (Floats). Memory is never short: outofmem ends the program. Where
-- the code writes over the end of a buffer, the state says so (overrun of Lex and Ims), or the model
-- of htimage stops (lex_overrun).
--
-- The loop of `match` (wild_loop) runs on fuel, one more than the characters of the text; each
-- round stands behind the text that it has found, so that is enough (Wild.Fuel). The loop of
-- HTLoadRules (load_loop) has as much fuel as the file has characters, of which each round reads
-- one at least. The loops of the group parser have one more than the bytes and the pushed item that
-- are left (`size`), of which each round takes one at least (Group.Parse.Total); so have the loops
-- of HTACL.c over records and list items with the bytes left (Acl.Total, AaFile.Left), that of
-- HTAA_checkPassword with the bytes of the password file (Passwd.Total), that of parse_time
-- with its characters (Times.Span.Total), and those of htimage's parser (Image.Total) and of a
-- form's fields with the bytes and the item left. The loop of IMS_decide over the colons has the
-- characters of the buffer. The balancing loop of HTBTree_add is a recursion on the corrections that
-- are left and on the way up; a walk by HTBTree_next has one round more than the tree has objects.
-- All other loops are recursions on the string or the list.
--
-- Not modelled: trace output and its formats; sscanf of the numbers behind a line's fields (the
-- text that it reads is a part of the modelled action); the network, the files and the processes of
-- the daemon, and its clock and time zone; HTSimplify and HTCanon, of which HTParse calls the first
-- (it is the argument `simplify` of ht_parse); the parsers and the stream converters of the library
-- that have no module here.
pub mod Base
pub mod Str
pub mod Parse
pub mod Wild
pub mod AaUtil
pub mod Rules
pub mod Uu
pub mod Ims
pub mod HtList
pub mod Lex
pub mod Assoc
pub mod Group
pub mod Mime
pub mod Times
pub mod AaFile
pub mod Acl
pub mod BTree
pub mod Passwd
pub mod Auth
pub mod Image
