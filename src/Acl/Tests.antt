-- ===== src/Acl/Tests.antt =====
-- The theorems on HTACL.c at a concrete access control list.
use cern_httpd.Base.{◌≡◌, refl, none, some, false, [], ◌∷◌, ◌++◌, codes, arith}
use cern_httpd.AaFile.{is_blank, ends_item, is_eol}
use cern_httpd.AaUtil.{template_match}
use cern_httpd.Lex.{initial}
use cern_httpd.Group.{group, no_items, item, users, no_refs, user}
use cern_httpd.Group.Parse.{Reader, parsed, rejected}
use cern_httpd.Group.Parse.File.{parse_group_def}
use cern_httpd.Acl.{get_acl_entry, filename_of, method_in_list, get_acl_filename}
use cern_httpd.Acl.Search.{at}
use cern_httpd.Acl.Lines.{AclLine, acl_text}
use cern_httpd.Acl.First.{get_acl_entry-first_line}

-- Three records, the first with a continuation line.
abbrev acl : Reader
acl = record {
  fp = 4;
  st = initial;
  text =
      codes "*.gif : get : ann,"
      ++ 10 ∷ codes "  jim"
      ++ 10 ∷ codes "*.html: put : ari"
      ++ 10 ∷ codes "*.html: GET, put : tim"
      ++ 10 ∷ [];
}

-- Two records are passed over.
get_html :
    (get_acl_entry (codes "/www/x.html") 1 acl).0
    ≡ parsed (group none (item (users (user (codes "tim") no_refs)) none no_items))
unfolding get_acl_entry initial
get_html = refl

acl_filename : get_acl_filename (codes "/www/x.html") ≡ codes "/www/.www_acl"
unfolding get_acl_filename
acl_filename = refl

abbrev put_line : AclLine
put_line = record {
  template = codes "*.html";
  first = codes "put";
  others = [];
  group_text = codes " ari";
}

abbrev get_line : AclLine
get_line = record {
  template = codes "*.html";
  first = codes "GET";
  others = codes "put" ∷ [];
  group_text = codes " tim";
}

get_acl_entry-first_line_example :
    (get_acl_entry
        (codes "/www/x.html")
        1
        (at acl (acl_text ((put_line ∷ []) ++ (get_line ∷ put_line ∷ []))))
      ≡ parse_group_def (at acl (codes " tim" ++ (10 ∷ acl_text (put_line ∷ [])))))
    × (get_acl_entry (codes "/www/x.html") 1 (at acl (acl_text (put_line ∷ [])))
        ≡ (rejected, at acl []))
unfolding filename_of is_blank ends_item is_eol template_match method_in_list
get_acl_entry-first_line_example =
    get_acl_entry-first_line (codes "/www/x.html") 1 acl (put_line ∷ []) (put_line ∷ []) get_line
      refl (ground arith) (ground arith) (refl, tt) refl

-- A template that is longer than the file's name is cut to one that matches it.
abbrev long_template : Reader
long_template = record { fp = 4; st = initial; text = codes "index*.html : GET : tim" ++ 10 ∷ [] }

no_match_of_all : template_match (some (codes "index*.html")) (some (codes "index")) ≡ false
unfolding template_match
no_match_of_all = refl

cut_template :
    (get_acl_entry (codes "/www/index") 1 long_template).0
    ≡ parsed (group none (item (users (user (codes "tim") no_refs)) none no_items))
unfolding get_acl_entry initial
cut_template = refl
