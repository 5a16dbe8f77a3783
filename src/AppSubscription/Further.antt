-- ===== src/AppSubscription/Further.antt =====
-- An app whose endpoint names a further app.
