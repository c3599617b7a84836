-- ===== src/Authz/Permits.antt =====
-- What a permit of the authorization service (src/kil/ext_authz_http.py) rests on.
